-- ===== src/Anchor/Defs.antt =====
-- Marks, their order, and the operations of an anchor.
use faar_runtime.Common.{
  ℕ, Bool, true, false, ◌&&◌, ◌||◌, Option, none, some, ltb, ◌==◌, if◌then◌else◌,
}
use faar_runtime.Common.Result.{Result, ok, err}

pub record Mark : Type 0 where
  pub epoch : ℕ
  pub fence : ℕ

-- The key of a grant version, and the reserved one of the table of exposure caps.
pub data AnchorKey : Type 0 where
  grant_key : ℕ → ℕ → AnchorKey
  exposure_caps : AnchorKey

unfoldable pub same_key : AnchorKey → AnchorKey → Bool
same_key (grant_key g v) (grant_key h w) = g == h && v == w
same_key (grant_key g v) exposure_caps = false
same_key exposure_caps (grant_key h w) = false
same_key exposure_caps exposure_caps = true

-- Python compares the tuples in lexicographic order.
unfoldable pub lt_mark : Mark → Mark → Bool
lt_mark a b = ltb a.epoch b.epoch || (a.epoch == b.epoch && ltb a.fence b.fence)

unfoldable pub max_mark : Mark → Mark → Mark
unfolding lt_mark
max_mark a b = if lt_mark a b then b else a

unfoldable pub regressed : Mark → Option Mark → Bool
unfolding lt_mark
regressed current none = false
regressed current (some mark) = lt_mark current mark

pub record Anchor : Type 0 where
  pub marks : AnchorKey → Option Mark
  pub identity : Option ℕ
  pub readable : AnchorKey → Bool
  pub writable : AnchorKey → Bool

pub data AnchorError : Type 0 where
  unavailable : AnchorError
  mismatch : AnchorError

unfoldable pub high_water : Anchor → AnchorKey → Result AnchorError (Option Mark)
high_water a k = if a.readable k then ok (a.marks k) else err unavailable

abbrev put : Anchor → AnchorKey → Mark → Anchor
put a k m = record a { marks = λ j. if same_key k j then some m else a.marks j }

-- `record`: the greater of the old mark, (0, 0) if there is none, and the proposed one
unfoldable pub record_mark : Anchor → AnchorKey → Mark → Result AnchorError Anchor
unfolding max_mark lt_mark same_key
record_mark a k m =
    if a.writable k
    then ok (
        put a k (
          max_mark (elim (a.marks k) [ none ↦ record { epoch = 0; fence = 0 } | some old ↦ old ])
            m))
    else err unavailable

-- `reset`: the mark itself
unfoldable pub reset_mark : Anchor → AnchorKey → Mark → Result AnchorError Anchor
unfolding same_key
reset_mark a k m = if a.writable k then ok (put a k m) else err unavailable

unfoldable pub bind_identity : Anchor → ℕ → Result AnchorError Anchor
bind_identity a i = elim a.identity [
  | none ↦ ok (record a { identity = some i })
  | some j ↦ if j == i then ok (record a { identity = some i }) else err mismatch
]
