-- ===== src/Utils/Id.antt =====
-- utils/id.go: the layout of a 64 bit identifier. The service's number is kept in the bits from 52
-- on, the entity's inner number in those from 32 on, and the table counts in the low 32 bits.
-- `config.ServiceId()` is the parameter `service`; `<<`, `+` and `-` are those of uint64.
pub mod Layout
use entix.Prelude.{ℕ, ◌+◌, ◌-◌, ◌*◌, ◌/◌, ◌%◌, ◌^◌, Bool, ◌==◌, if◌then◌else◌}

abbrev pub service_bits : ℕ
service_bits = 52

abbrev pub entity_id_bits : ℕ
entity_id_bits = 32

abbrev pub u64 : ℕ → ℕ
u64 n = n % 2 ^ 64

unfoldable pub encode_base_id : ℕ → ℕ → Bool → ℕ
encode_base_id service entity_inner_id id_no_shift =
    if id_no_shift
    then 0
    else u64 (u64 (service * 2 ^ service_bits) + u64 (entity_inner_id * 2 ^ entity_id_bits))

unfoldable pub decode_entity_inner_id : ℕ → ℕ → ℕ
decode_entity_inner_id service id =
    if id / 2 ^ entity_id_bits == 0
    then 1
    else u64 (id + 2 ^ 64 - u64 (service * 2 ^ service_bits)) / 2 ^ entity_id_bits
