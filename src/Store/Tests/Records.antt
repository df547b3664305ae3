-- ===== src/Store/Tests/Records.antt =====
-- Evidence on the fixtures.
use faar_runtime.Common.{◌≡◌, refl, true, none, map}
use faar_runtime.Common.Result.{ok}
use faar_runtime.Models.Enums.{reserved}
use faar_runtime.Store.Schema.{Event, Store}
use faar_runtime.Store.Evidence.{
  Content, add_evidence, evidence_rows, evidence_status, valid, tail_hash, length,
  verify_chain_rows,
}
use faar_runtime.Store.Chain.Rows.{hashed}
use faar_runtime.Store.Chain.Binding.{IsCollisionFree, head_commits_length, head_commits_contents}
use faar_runtime.Store.Chain.Growth.{IsGrown, append_keeps_valid}
use faar_runtime.Store.Tests.Fixtures.{store_at, after, crypto}

abbrev store : Store
store = store_at reserved

abbrev note : Content
note = record { event_type = 2; payload = 9; size = 40; created_at = 12 }

abbrev noted : Store
noted = after store (add_evidence crypto store 100 note)

note_eq : add_evidence crypto store 100 note ≡ ok (2009, noted)
unfolding add_evidence faar_runtime.Table.find faar_runtime.Table.select
note_eq = refl

chain_verifies : (verify_chain_rows crypto 100 none 0 (evidence_rows store 100)).0 ≡ true
unfolding verify_chain_rows evidence_rows faar_runtime.Table.select
chain_verifies = refl

append_keeps_valid_example : IsGrown crypto store 100 2009 noted
append_keeps_valid_example =
    append_keeps_valid crypto store noted 100 2009 note chain_verifies note_eq

abbrev renumber : Event → Event
renumber e = record e { id = 8 }

-- The same chain with another id in its row, which is not hashed.
abbrev renumbered : Store
renumbered = record noted { db = record noted.db { evidence = map renumber noted.evidence } }

noted-valid : evidence_status crypto noted 100 ≡ valid
unfolding evidence_status faar_runtime.Table.find add_evidence faar_runtime.Table.select
    faar_runtime.Table.exists
noted-valid = refl

renumbered-valid : evidence_status crypto renumbered 100 ≡ valid
unfolding evidence_status faar_runtime.Table.find add_evidence faar_runtime.Table.select
    faar_runtime.Table.exists
renumbered-valid = refl

head_commits_length_example :
    (length (evidence_rows noted 100) ≡ length (evidence_rows renumbered 100))
    × (tail_hash none (evidence_rows noted 100) ≡ tail_hash none (evidence_rows renumbered 100))
head_commits_length_example =
    head_commits_length crypto noted renumbered 100 refl refl noted-valid renumbered-valid

collision_free : IsCollisionFree crypto 100 (evidence_rows noted 100) (evidence_rows renumbered 100)
unfolding evidence_rows faar_runtime.Table.select add_evidence faar_runtime.Table.find
collision_free = (((λ _. refl), tt), tt)

head_commits_contents_example :
    map (hashed 100) (evidence_rows noted 100) ≡ map (hashed 100) (evidence_rows renumbered 100)
head_commits_contents_example =
    head_commits_contents crypto noted renumbered 100 refl refl noted-valid renumbered-valid
      collision_free
