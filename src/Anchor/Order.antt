-- ===== src/Anchor/Order.antt =====
-- The order of marks is the lexicographic one, and recording never lowers a mark.
use faar_runtime.Common.{◌<◌, ◌≡◌, refl, ◌⊎◌, true, arith}
use faar_runtime.Anchor.Defs.{Mark, AnchorKey, grant_key, exposure_caps, same_key, lt_mark}

-- A mark is behind another: the epoch is less, or the same with a lesser fence counter.
abbrev pub Behind : Mark → Mark → Type 0
Behind a b = (a.epoch < b.epoch) ⊎ ((a.epoch ≡ b.epoch) × (a.fence < b.fence))

pub lt_mark→Behind : (a b : Mark) → lt_mark a b ≡ true → Behind a b
unfolding lt_mark
lt_mark→Behind a b h = ground arith

pub Behind→lt_mark : (a b : Mark) → Behind a b → lt_mark a b ≡ true
unfolding lt_mark
Behind→lt_mark a b h = ground arith

pub same_key_refl : (k : AnchorKey) → same_key k k ≡ true
unfolding same_key
same_key_refl (grant_key g v) = ground arith
same_key_refl exposure_caps = refl

pub same_key_sound : (k j : AnchorKey) → same_key k j ≡ true → k ≡ j
unfolding same_key
same_key_sound (grant_key g v) (grant_key h w) e = ground arith
same_key_sound (grant_key g v) exposure_caps e = ground arith
same_key_sound exposure_caps (grant_key h w) e = ground arith
same_key_sound exposure_caps exposure_caps e = refl
