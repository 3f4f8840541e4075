-- ===== src/Mount/Sound/Entries.antt =====
-- The changes of the state file keep its targets apart.
use tartarus_nix.Base.{
  ◌≡◌, refl, sym, inl, inr, true, false, ◌||◌, some, List, [], ◌∷◌, ◌++◌, Text, bytes_eq,
  bytes_eq_iff, any, arith, Bool-cases, Option-cases,
}
use mathlib.Core.Path.{subst}
use tartarus_nix.Json.{Value, lookup, equals}
use tartarus_nix.Mount.Requests.{
  free, has_target, same_record, find_managed, new_entry, take_record, live_entries, is_live,
}
use tartarus_nix.Mount.Host.{World, Event}
use tartarus_nix.Mount.Sound.{Unique}

pub find_managed-free :
    (identifier target mode : Text) (entries : List Value)
    → find_managed identifier target mode entries ≡ free
    → any (has_target target) entries ≡ false
unfolding find_managed
find_managed-free identifier target mode [] e = refl
find_managed-free identifier target mode (entry ∷ entries) e =
    elim (Bool-cases (same_record identifier target mode entry)) [
      | inl same ↦ absurd (ground (arith, same))
      | inr other ↦ elim (Bool-cases (has_target target entry)) [
        | inl has ↦ absurd (ground (arith, other, has))
        | inr hasnt ↦
            rw hasnt
              (find_managed-free identifier target mode entries (ground (arith, other, hasnt)))
      ]
    ]

any-snoc :
    (t : Text) (entries : List Value) (entry : Value)
    → any (has_target t) (entries ++ entry ∷ [])
      ≡ (any (has_target t) entries || has_target t entry)
any-snoc t [] entry = ground arith
any-snoc t (e ∷ entries) entry = ground (arith, any-snoc t entries entry)

pub Unique-snoc :
    (target : Text) (entries : List Value) (entry : Value)
    → ((t : Text) → has_target t entry ≡ true → t ≡ target)
    → any (has_target target) entries ≡ false
    → Unique entries
    → Unique (entries ++ entry ∷ [])
Unique-snoc target [] entry only apart u = ((λ t h. refl), tt)
Unique-snoc target (e ∷ entries) entry only apart u = (
  λ t h. elim (Bool-cases (has_target t entry)) [
    | inl same ↦
        absurd (ground (arith, only t same, subst (λ s. has_target s e ≡ true) (only t same) h))
    | inr other ↦ rw (any-snoc t entries entry) (ground (arith, u.0 t h, other))
  ],
  Unique-snoc target entries entry only (ground arith) u.1,
)

pub new_entry-only :
    (identifier target mode source t : Text)
    → has_target t (new_entry identifier target mode source) ≡ true
    → t ≡ target
unfolding has_target new_entry lookup equals bytes_eq
new_entry-only identifier target mode source t h = sym ((bytes_eq_iff target t).0 h)

-- What is left when the record of a target is taken out: no target more, and still each once.
pub take_record-Unique :
    (target : Text) (entries : List Value) (entry : Value) (rest : List Value)
    → take_record target entries ≡ some (entry, rest)
    → Unique entries
    → Unique rest
      × ((t : Text) → any (has_target t) entries ≡ false → any (has_target t) rest ≡ false)
unfolding take_record
take_record-Unique target [] entry rest e u = absurd (cc)
take_record-Unique target (first ∷ entries) entry rest e u =
    elim (Bool-cases (has_target target first)) [
      | inl has ↦
          let same : entries ≡ rest = ground (arith, has) in
          (
            subst Unique same u.1,
            λ t h. subst (λ l. any (has_target t) l ≡ false) same (ground arith),
          )
      | inr hasnt ↦ elim (Option-cases (take_record target entries)) [
        | inl missing ↦ absurd (ground (arith, hasnt, missing))
        | inr (r, found) ↦
            let same : first ∷ r.1 ≡ rest = ground (arith, hasnt, found) in
            let (unique, fewer) = take_record-Unique target entries r.0 r.1 found u.1 in
            (
              subst Unique same ((λ t h. fewer t (u.0 t h)), unique),
              λ t h. subst (λ l. any (has_target t) l ≡ false) same (ground (arith, fewer t)),
            )
      ]
    ]

pub live_entries-Unique :
    (w : World) (trace : List Event) (entries : List Value)
    → Unique entries
    → Unique (live_entries w trace entries)
      × ((t : Text)
          → any (has_target t) entries ≡ false
          → any (has_target t) (live_entries w trace entries) ≡ false)
unfolding live_entries
live_entries-Unique w trace [] u = (tt, λ t h. refl)
live_entries-Unique w trace (entry ∷ entries) u =
    let (unique, fewer) = live_entries-Unique w trace entries u.1 in
    elim (Bool-cases (is_live w trace entry)) [
      | inl live ↦ rw live (((λ t h. fewer t (u.0 t h)), unique), λ t h. ground (arith, fewer t))
      | inr dead ↦ rw dead (unique, λ t h. ground (arith, fewer t))
    ]
