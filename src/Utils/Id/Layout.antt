-- ===== src/Utils/Id/Layout.antt =====
-- utils/id.go: reading an identifier back.
use entix.Prelude.{ℕ, ◌+◌, ◌^◌, ◌≤◌, ◌<◌, ◌≡◌, true, false, arith}
use entix.Utils.Id.{encode_base_id, decode_entity_inner_id}

-- A row that an entity's table numbers from its base, as its n-th, is traced back to the entity: for
-- an inner number and a count below 2 ^ 32, where the identifier does not leave 64 bits and reaches
-- above the low 32.
pub decode_entity_inner_id-encode_base_id :
    (service entity n : ℕ)
    → entity < 2 ^ 32
    → n < 2 ^ 32
    → 2 ^ 32 ≤ encode_base_id service entity false + n
    → encode_base_id service entity false + n < 2 ^ 64
    → decode_entity_inner_id service (encode_base_id service entity false + n) ≡ entity
unfolding encode_base_id decode_entity_inner_id
decode_entity_inner_id-encode_base_id service entity n he hn lo hi = ground arith

-- A row of a table that is not shifted is always taken for one of the entity `App`, number 1.
pub decode_entity_inner_id-no_shift :
    (service entity n : ℕ)
    → n < 2 ^ 32
    → decode_entity_inner_id service (encode_base_id service entity true + n) ≡ 1
unfolding encode_base_id decode_entity_inner_id
decode_entity_inner_id-no_shift service entity n hn = ground arith

-- Within 12 bits for the service, 20 for the entity and 32 for the count, no two rows of tables whose
-- identifiers are shifted share an identifier.
pub encode_base_id_unique :
    (s s' e e' n n' : ℕ)
    → s < 2 ^ 12
    → s' < 2 ^ 12
    → e < 2 ^ 20
    → e' < 2 ^ 20
    → n < 2 ^ 32
    → n' < 2 ^ 32
    → encode_base_id s e false + n ≡ encode_base_id s' e' false + n'
    → (s ≡ s') × (e ≡ e') × (n ≡ n')
unfolding encode_base_id
encode_base_id_unique s s' e e' n n' hs hs' he he' hn hn' h = omega arith
