-- ===== src/Store/Chain/Rows.antt =====
-- What _verify_chain_rows says of the rows that it accepts.
use faar_runtime.Common.{
  ℕ, ◌+◌, ◌≡◌, refl, ◌∙◌, ap, Bool, true, false, ◌&&◌, Option, none, some, List, [], ◌∷◌, ◌++◌,
  arith, ◌==◌, ==_iff, if◌then◌else◌,
}
use faar_runtime.Store.Schema.{Event}
use faar_runtime.Store.Evidence.{
  Crypto, Envelope, is_event_valid, verify_chain_rows, tail_hash, same_option, length,
}

-- The envelope that the check hashes.
abbrev pub hashed : ℕ → Event → Envelope
hashed i e = record {
  intent_id = i;
  event_type = e.event_type;
  payload = e.payload;
  created_at = e.created_at;
  prev_hash = e.prev_hash;
}

-- Each row links to the one before it and carries its own hash.
abbrev pub IsChain : Crypto → ℕ → Option ℕ → List Event → Type 0
IsChain c i prev [] = Unit
IsChain c i prev (e ∷ es) =
    (e.prev_hash ≡ prev)
    × (c.digest (hashed i e) ≡ e.event_hash)
    × IsChain c i (some e.event_hash) es

pub same_option_sound : (a b : Option ℕ) → same_option a b ≡ true → a ≡ b
same_option_sound none none h = refl
same_option_sound none (some y) h = cc
same_option_sound (some x) none h = cc
same_option_sound (some x) (some y) h = ap some ((==_iff x y).0 h)

pub same_option_refl : (a : Option ℕ) → same_option a a ≡ true
same_option_refl none = refl
same_option_refl (some x) = (==_iff x x).1 refl

split_and : (a b : Bool) → (a && b) ≡ true → (a ≡ true) × (b ≡ true)
split_and a b h = ground arith

accepted_rest :
    (b : Bool) (r : Bool × ℕ × Option ℕ) (n : ℕ) (o : Option ℕ)
    → (if b then r else (false, n, o)).0 ≡ true
    → (b ≡ true) × (r.0 ≡ true)
accepted_rest true r n o h = (refl, h)
accepted_rest false r n o h = cc

pub verified-IsChain :
    (c : Crypto) (i : ℕ) (prev : Option ℕ) (n : ℕ) (es : List Event)
    → (verify_chain_rows c i prev n es).0 ≡ true
    → IsChain c i prev es
unfolding verify_chain_rows
verified-IsChain c i prev n [] h = tt
verified-IsChain c i prev n (e ∷ es) h =
    let (valid, rest) = accepted_rest (is_event_valid c i prev e) _ n prev h in
    let (linked, signed) = split_and (same_option e.prev_hash prev) _ valid in
    let (hash, mac) = split_and (c.digest (hashed i e) == e.event_hash) _ signed in
    (
      same_option_sound e.prev_hash prev linked,
      (==_iff (c.digest (hashed i e)) e.event_hash).0 hash,
      verified-IsChain c i (some e.event_hash) (n + 1) es rest,
    )

-- An accepted chain is counted whole, and its last hash is that of its last row.
pub verified-counts :
    (c : Crypto) (i : ℕ) (prev : Option ℕ) (n : ℕ) (es : List Event)
    → (verify_chain_rows c i prev n es).0 ≡ true
    → verify_chain_rows c i prev n es ≡ (true, n + length es, tail_hash prev es)
unfolding verify_chain_rows tail_hash
verified-counts c i prev n [] h = ap (λ m. (true, m, prev)) (plus_zero n)
  where
    plus_zero : (n : ℕ) → n ≡ n + 0
    plus_zero n = omega arith
verified-counts c i prev n (e ∷ es) h =
    let (valid, rest) = accepted_rest (is_event_valid c i prev e) _ n prev h in
    (rw valid refl)
    ∙ verified-counts c i (some e.event_hash) (n + 1) es rest
    ∙ ap (λ m. (true, m, tail_hash (some e.event_hash) es)) (shift n (length es))
  where
    shift : (n m : ℕ) → n + 1 + m ≡ n + (m + 1)
    shift n m = omega arith

pub verify-append :
    (c : Crypto) (i : ℕ) (prev : Option ℕ) (n : ℕ) (es : List Event) (e : Event)
    → (verify_chain_rows c i prev n es).0 ≡ true
    → is_event_valid c i (tail_hash prev es) e ≡ true
    → (verify_chain_rows c i prev n (es ++ e ∷ [])).0 ≡ true
unfolding verify_chain_rows tail_hash
verify-append c i prev n [] e h k = rw k refl
verify-append c i prev n (f ∷ es) e h k =
    let (valid, rest) = accepted_rest (is_event_valid c i prev f) _ n prev h in
    rw valid (verify-append c i (some f.event_hash) (n + 1) es e rest k)
