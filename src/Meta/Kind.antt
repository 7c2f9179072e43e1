-- ===== src/Meta/Kind.antt =====
-- model/meta/classmeta.go, relationmeta.go: what a class and a relation can be.
use entix.Prelude.{String}

abbrev pub entity : String
entity = "Entity"

abbrev pub enum : String
enum = "Enum"

abbrev pub abstract : String
abstract = "Abstract"

abbrev pub value_object : String
value_object = "ValueObject"

abbrev pub third_party : String
third_party = "ThirdParty"

abbrev pub inherit : String
inherit = "inherit"

abbrev pub two_way_association : String
two_way_association = "twoWayAssociation"

abbrev pub two_way_aggregation : String
two_way_aggregation = "twoWayAggregation"

abbrev pub two_way_combination : String
two_way_combination = "twoWayCombination"

abbrev pub one_way_association : String
one_way_association = "oneWayAssociation"

abbrev pub one_way_combination : String
one_way_combination = "oneWayCombination"

abbrev pub zero_one : String
zero_one = "0..1"

abbrev pub zero_many : String
zero_many = "0..*"
