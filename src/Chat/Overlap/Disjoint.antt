-- ===== src/Chat/Overlap/Disjoint.antt =====
-- What the two loops of `confirm_send` of gday_chat/src/file_dialog.rs decide.
use gday_old.Base.{
  ℕ, ◌≡◌, ◌≢◌, ◌↔◌, refl, sym, ◌∙◌, ap, Bool, true, false, ◌||◌, List, [], ◌∷◌, ◌++◌, map, All,
  Bool-cases, inl, inr, ◌⊎◌, subst,
}
use gday_old.Base.Outcome.{Result, ok, err}
use gday_old.Base.Text.{Bytes, same_text, same_text_refl, same_text→eq}
use gday_old.Chat.Overlap.{
  ConfirmSendError, io, overlapping_paths, starts_with, overlap, check_against, and_then,
  check_paths,
}

-- A canonical path is a base or lies below it: it is the base with further components.
abbrev pub LiesIn : List Bytes → List Bytes → Type 0
LiesIn path base = (below : List Bytes) × (path ≡ base ++ below)

-- Neither of two canonical paths lies in the other.
abbrev pub AreDisjoint : List Bytes → List Bytes → Type 0
AreDisjoint path1 path2 = (LiesIn path1 path2 → ⊥) × (LiesIn path2 path1 → ⊥)

abbrev pub AllDisjoint : List (List Bytes) → Type 0
AllDisjoint [] = Unit
AllDisjoint (path ∷ paths) = All (AreDisjoint path) paths × AllDisjoint paths

starts_with→LiesIn : (path base : List Bytes) → starts_with path base ≡ true → LiesIn path base
starts_with→LiesIn path [] h = (path, refl)
starts_with→LiesIn [] (c ∷ base) h = cc
starts_with→LiesIn (c ∷ path) (d ∷ base) h = elim (Bool-cases (same_text c d)) [
  | inl e ↦
      let (below, below_eq) = starts_with→LiesIn path base (rw e at h) in
      let first = same_text→eq c d e in (below, ap (λ s. s ∷ path) first ∙ ap (λ s. d ∷ s) below_eq)
  | inr e ↦ let no = rw e at h in cc
]

starts_with-append : (base below : List Bytes) → starts_with (base ++ below) base ≡ true
starts_with-append [] below = refl
starts_with-append (c ∷ base) below = rw (same_text_refl c) (starts_with-append base below)

LiesIn→starts_with : (path base : List Bytes) → LiesIn path base → starts_with path base ≡ true
LiesIn→starts_with path base (below, e) =
    ap (λ s. starts_with s base) e ∙ starts_with-append base below

or_iff : (a b : Bool) → (a || b ≡ false) ↔ ((a ≡ false) × (b ≡ false))
or_iff true b = (λ h. cc, λ (h, h'). cc)
or_iff false b = (λ h. (refl, h), λ (h, h'). h')

not_true : (b : Bool) → b ≡ true → b ≡ false → ⊥
not_true b e e' = let both = sym e ∙ e' in cc

overlap_iff : (path1 path2 : List Bytes) → (overlap path1 path2 ≡ false) ↔ AreDisjoint path1 path2
overlap_iff path1 path2 =
    let (from, to) = or_iff (starts_with path1 path2) (starts_with path2 path1) in
    (
      λ h.
          let (h1, h2) = from h in
          (
            λ l. not_true (starts_with path1 path2) (LiesIn→starts_with path1 path2 l) h1,
            λ l. not_true (starts_with path2 path1) (LiesIn→starts_with path2 path1 l) h2,
          ),
      λ (out1, out2). to (apart path1 path2 out1, apart path2 path1 out2),
    )
  where
    apart : (path base : List Bytes) → (LiesIn path base → ⊥) → starts_with path base ≡ false
    apart path base out = elim (Bool-cases (starts_with path base)) [
      | inl e ↦ absurd (out (starts_with→LiesIn path base e))
      | inr e ↦ e
    ]

Result-cases :
    (r : Result ℕ (List Bytes)) → ((e : ℕ) × (r ≡ err e)) ⊎ ((path : List Bytes) × (r ≡ ok path))
Result-cases (err e) = inl (e, refl)
Result-cases (ok path) = inr (path, refl)

failed : (e : ConfirmSendError) → (let r : Result ConfirmSendError (Unit {0}) = err e in r ≢ ok tt)
failed e h = cc

cons_ok :
    {r : Result ℕ (List Bytes)} {c : List Bytes} {rs : List (Result ℕ (List Bytes))}
    (cs : List (List Bytes))
    → r ≡ ok c
    → rs ≡ map ok cs
    → r ∷ rs ≡ map ok (c ∷ cs)
cons_ok cs e es = rw (e, es) refl

map_ok_injective :
    (cs cs' : List (List Bytes))
    → (let rs : List (Result ℕ (List Bytes)) = map ok cs in rs ≡ map ok cs')
    → cs ≡ cs'
map_ok_injective [] [] e = refl
map_ok_injective [] (c ∷ cs) e = cc
map_ok_injective (c ∷ cs) [] e = cc
map_ok_injective (c ∷ cs) (d ∷ ds) e = let rest = map_ok_injective cs ds (cc) in cc

module _ (canonicalize : Bytes → Result ℕ (List Bytes)) where
  -- The paths can be made canonical, and those have the property.
  abbrev pub Canonically : (List (List Bytes) → Type 0) → List Bytes → Type 0
  Canonically P paths = (cs : List (List Bytes)) × (map canonicalize paths ≡ map ok cs) × P cs

  record HeadTail (path : Bytes) (paths : List Bytes) (cs : List (List Bytes)) : Type 0 where
    head : List Bytes
    tail : List (List Bytes)
    cs_eq : cs ≡ head ∷ tail
    head_eq : canonicalize path ≡ ok head
    tail_eq : map canonicalize paths ≡ map ok tail

  head_tail :
      (path : Bytes) (paths : List Bytes) (cs : List (List Bytes))
      → map canonicalize (path ∷ paths) ≡ map ok cs
      → HeadTail path paths cs
  head_tail path paths [] e = cc
  head_tail path paths (c ∷ cs) e = record {
    head = c;
    tail = cs;
    cs_eq = refl;
    head_eq = cc;
    tail_eq = cc;
  }

  against_iff :
      (path1 : Bytes) (c1 : List Bytes) (paths : List Bytes)
      → (check_against canonicalize path1 c1 paths ≡ ok tt)
        ↔ Canonically (λ cs. All (AreDisjoint c1) cs) paths
  unfolding check_against
  against_iff path1 c1 [] = (λ _. ([], refl, tt), λ _. refl)
  against_iff path1 c1 (path2 ∷ paths) =
      let (from, to) = against_iff path1 c1 paths in
      (
        λ h. elim (Result-cases (canonicalize path2)) [
          | inl (e, is_err) ↦ absurd (failed (io e) (rw (is_err, check_against) at h))
          | inr (c2, is_ok) ↦ elim (Bool-cases (overlap c1 c2)) [
            | inl o ↦
                absurd (failed (overlapping_paths path1 path2) (rw (is_ok, o, check_against) at h))
            | inr o ↦
                let (cs, eq, apart) = from (rw (is_ok, o, check_against) at h) in
                (c2 ∷ cs, cons_ok cs is_ok eq, ((overlap_iff c1 c2).0 o, apart))
          ]
        ],
        λ (cs, eq, apart).
            let f = head_tail path2 paths cs eq in
            let (here, rest) = subst (All (AreDisjoint c1)) f.cs_eq apart in
            rw (f.head_eq, (overlap_iff c1 f.head).1 here, check_against)
              (to (f.tail, f.tail_eq, rest)),
      )

  both :
      (first next : Result ConfirmSendError (Unit {0}))
      → (and_then canonicalize first next ≡ ok tt) ↔ ((first ≡ ok tt) × (next ≡ ok tt))
  both (err e) next = (λ h. absurd (failed e h), λ (h, hs). absurd (failed e h))
  both (ok tt) next = (λ h. (refl, h), λ (h, hs). hs)

  -- The loops of `confirm_send` let a list of paths pass exactly when all of them can be made
  -- canonical and none of the canonical paths is another one or lies below it.
  pub check_paths_iff :
      (paths : List Bytes)
      → (check_paths canonicalize paths ≡ ok tt) ↔ Canonically AllDisjoint paths
  unfolding check_paths
  check_paths_iff [] = (λ _. ([], refl, tt), λ _. refl)
  check_paths_iff (path ∷ paths) =
      let (from, to) = check_paths_iff paths in
      (
        λ h. elim (Result-cases (canonicalize path)) [
          | inl (e, is_err) ↦ absurd (failed (io e) (rw (is_err, check_paths) at h))
          | inr (c, is_ok) ↦
              let (first, rest) =
                (both (check_against canonicalize path c paths) (check_paths canonicalize paths)).0
                  (rw (is_ok, check_paths) at h) in
              let (cs, eq, apart) = (against_iff path c paths).0 first in
              let (cs', eq', disjoint) = from rest in
              let same = map_ok_injective cs cs' (sym eq ∙ eq') in
              (c ∷ cs, cons_ok cs is_ok eq, (apart, subst AllDisjoint (sym same) disjoint))
        ],
        λ (cs, eq, disjoint).
            let f = head_tail path paths cs eq in
            let (apart, rest) = subst AllDisjoint f.cs_eq disjoint in
            rw (f.head_eq, check_paths)
              ((both (check_against canonicalize path f.head paths)
                  (check_paths canonicalize paths)).1
                (
                  (against_iff path f.head paths).1 (f.tail, f.tail_eq, apart),
                  to (f.tail, f.tail_eq, rest),
                )),
      )
