-- ===== src/Sudo/Display/Bounds.antt =====
-- What a sanitised text may hold, and how long it may be.
use tartarus_nix.Base.{
  ℕ, zero, suc, ◌≤◌, ◌≡◌, refl, ap, ◌∙◌, inl, inr, Bool, true, false, ◌&&◌, ◌||◌, not, sym, Option,
  none, some, [], ◌∷◌, Text, codes, length, take, all, map, arith, ◌==◌, ==_iff, Bool-cases,
  if◌then◌else◌,
}
use tartarus_nix.Json.{Value, null, boolean, integer, real, string, array, object}
use tartarus_nix.Sudo.Display.{
  Texts, is_allowed, question_mark, clean, sanitize_text, sanitize_field, escape_swiftdialog_markup,
  replace_all, replace_escaped,
}

-- A character that may be shown: one of the allow list, or the question mark.
abbrev pub shows : ℕ → Bool
shows c = is_allowed c || (c == question_mark)

clean-shows : (c : ℕ) → shows (clean c) ≡ true
clean-shows c = elim (Bool-cases (is_allowed c)) [
  | inl e ↦ rw (e, if◌then◌else◌) (rw e refl)
  | inr e ↦ rw (e, if◌then◌else◌) refl
]

cleaned : (n : ℕ) (s : Text) → all shows (take n (map clean s)) ≡ true
cleaned zero s = refl
cleaned (suc n) [] = refl
cleaned (suc n) (c ∷ s) = rw (clean-shows c) (cleaned n s)

take_bound : (n : ℕ) (s : Text) → length (take n s) ≤ n
take_bound zero s = omega arith
take_bound (suc n) [] = omega arith
take_bound (suc n) (c ∷ s) = omega (arith, take_bound n s)

abbrev Bounded : Text → ℕ → Type 0
Bounded s n = (all shows s ≡ true) × (length s ≤ n)

text-Bounded : (lib : Texts) (s : Text) (n : ℕ) → Bounded (sanitize_text lib s n) n
unfolding sanitize_text
text-Bounded lib s n = (cleaned n (lib.nfc s), take_bound n (map clean (lib.nfc s)))

-- Whatever value a peer sends, its sanitised form has only characters of the allow list and question
-- marks, and at most `max_length` of them.
pub sanitize_field_bounds :
    (lib : Texts) (v : Option Value) (max_length : ℕ)
    → (all shows (sanitize_field lib v max_length) ≡ true)
      × (length (sanitize_field lib v max_length) ≤ max_length)
unfolding sanitize_field
sanitize_field_bounds lib none n = (refl, omega arith)
sanitize_field_bounds lib (some null) n = (refl, omega arith)
sanitize_field_bounds lib (some (string s)) n = text-Bounded lib s n
sanitize_field_bounds lib (some (boolean b)) n = text-Bounded lib (lib.str (boolean b)) n
sanitize_field_bounds lib (some (integer i)) n = text-Bounded lib (lib.str (integer i)) n
sanitize_field_bounds lib (some (real r)) n = text-Bounded lib (lib.str (real r)) n
sanitize_field_bounds lib (some (array a)) n = text-Bounded lib (lib.str (array a)) n
sanitize_field_bounds lib (some (object o)) n = text-Bounded lib (lib.str (object o)) n

conjuncts : (a b : Bool) → (a && b) ≡ true → (a ≡ true) × (b ≡ true)
conjuncts a b h = ground arith

shows_apart : (a b : ℕ) → shows a ≡ true → shows b ≡ false → (a == b) ≡ false
shows_apart a b sa sb = elim (Bool-cases (a == b)) [
  | inl e ↦ absurd (true_is_not_false (sym sa ∙ (ap shows ((==_iff a b).0 e) ∙ sb)))
  | inr e ↦ e
]
  where
    true_is_not_false : true ≡ false → ⊥
    true_is_not_false e = absurd (cc)

replace_escaped_hidden :
    (m : ℕ) (s : Text) → shows m ≡ false → all shows s ≡ true → replace_escaped m s ≡ s
unfolding replace_escaped
replace_escaped_hidden m [] hidden h = refl
replace_escaped_hidden m (c ∷ s) hidden h =
    let (sc, ss) = conjuncts (shows c) (all shows s) h in
    rw (shows_apart c m sc hidden) (ap (λ l. c ∷ l) (replace_escaped_hidden m s hidden ss))

replace_all_hidden :
    (ms s : Text) → all (λ m. not (shows m)) ms ≡ true → all shows s ≡ true → replace_all ms s ≡ s
unfolding replace_all
replace_all_hidden [] s hidden h = refl
replace_all_hidden (m ∷ ms) s hidden h =
    let (hm, hms) = conjuncts (not (shows m)) (all (λ m. not (shows m)) ms) hidden in
    rw (replace_escaped_hidden m s (negated (shows m) hm) h) (replace_all_hidden ms s hms h)
  where
    negated : (b : Bool) → not b ≡ true → b ≡ false
    negated b e = ground arith

-- Escaping the markup of a sanitised text leaves it as it is: none is left to escape.
pub escape_swiftdialog_markup-sanitize_field :
    (lib : Texts) (v : Option Value) (max_length : ℕ)
    → escape_swiftdialog_markup (sanitize_field lib v max_length) ≡ sanitize_field lib v max_length
unfolding escape_swiftdialog_markup
escape_swiftdialog_markup-sanitize_field lib v max_length =
    replace_all_hidden (codes "*[]()") (sanitize_field lib v max_length) refl
      (sanitize_field_bounds lib v max_length).0
