-- ===== src/Base32/Codes.antt =====
-- Room codes: `to_string` and `from_string` of gday/src/base32.rs.
use gday_old.Base.{
  ℕ, ◌<◌, ◌≡◌, ◌≢◌, refl, List, [], ◌∷◌, ◌++◌, map, All, append_assoc, append-nil, ap, ◌∙◌,
  All-append, ◌==◌, false,
}
use gday_old.Base.Outcome.{returns, ◌>>=◌, Profile, u32_mod}
use gday_old.Base.Text.{Bytes, trim-eq, split, split-append, split-eq, IsSolid}
use gday_old.Base32.{dotted, push_vals, to_string, read_parts, from_string}
use gday_old.Base32.RoundTrip.{text, text-Prints, plain-IsSolid, IsPlain}

abbrev pub IsU32 : ℕ → Type 0
IsU32 n = n < u32_mod

-- Every value with a dot in front.
dots : List ℕ → Bytes
dots [] = []
dots (v ∷ vs) = b'.' ∷ text v ++ dots vs

dotted-cons : (s : Bytes) → s ≢ [] → dotted s ≡ s ++ b'.' ∷ []
dotted-cons [] h = absurd (h refl)
dotted-cons (c ∷ s) h = refl

append-ne-nil : (s t : Bytes) → s ≢ [] → s ++ t ≢ []
append-ne-nil [] t h = absurd (h refl)
append-ne-nil (c ∷ s) t h = cc

push_vals-dots :
    (vals : List ℕ) (s : Bytes)
    → s ≢ []
    → All IsU32 vals
    → push_vals vals s ≡ returns (s ++ dots vals)
unfolding push_vals dots
push_vals-dots [] s h us = rw append-nil
push_vals-dots (v ∷ vs) s h (u, us) =
    rw ((text-Prints v u).printed, dotted-cons s h)
      (push_vals-dots vs ((s ++ b'.' ∷ []) ++ text v) (append-ne-nil _ _ (append-ne-nil s _ h)) us
        ∙ ap returns (simp append_assoc))

to_string-dots :
    (v : ℕ) (vs : List ℕ) → All IsU32 (v ∷ vs) → to_string (v ∷ vs) ≡ returns (text v ++ dots vs)
unfolding to_string push_vals
to_string-dots v vs (u, us) =
    rw (text-Prints v u).printed (push_vals-dots vs (text v) (text-Prints v u).shown us)

plain-no_dot : (s : Bytes) → All IsPlain s → All (λ c. (c == b'.') ≡ false) s
plain-no_dot [] h = tt
plain-no_dot (c ∷ s) ((d, is_d, _), hs) = (is_d.no_dot, plain-no_dot s hs)

split-dots :
    (v : ℕ) (vs : List ℕ)
    → All IsU32 (v ∷ vs)
    → split b'.' (text v ++ dots vs) ≡ text v ∷ map text vs
unfolding dots
split-dots v [] (u, us) =
    rw append-nil (split-eq b'.' (text v) (plain-no_dot _ (text-Prints v u).plain))
split-dots v (w ∷ vs) (u, us) =
    split-append b'.' (text v) (text w ++ dots vs) (plain-no_dot _ (text-Prints v u).plain)
    ∙ ap (λ t. text v ∷ t) (split-dots w vs us)

dots-IsSolid : (vs : List ℕ) → All IsU32 vs → All IsSolid (dots vs)
unfolding dots
dots-IsSolid [] us = tt
dots-IsSolid (v ∷ vs) (u, us) = (
  refl,
  All-append IsSolid (text v) (dots vs) (plain-IsSolid _ (text-Prints v u).plain)
      (dots-IsSolid vs us),
)

read_parts-text :
    (p : Profile) (vs : List ℕ) → All IsU32 vs → read_parts p (map text vs) ≡ returns vs
unfolding read_parts
read_parts-text p [] us = refl
read_parts-text p (v ∷ vs) (u, us) = rw ((text-Prints v u).read p, read_parts-text p vs us)

-- A list of u32 values with at least one entry is printed as a code, with no panic, and the code is
-- read back as the same list, in either profile.
pub from_string-to_string :
    (p : Profile) (vals : List ℕ)
    → vals ≢ []
    → All IsU32 vals
    → (to_string vals >>= from_string p) ≡ returns vals
unfolding from_string
from_string-to_string p [] h us = absurd (h refl)
from_string-to_string p (v ∷ vs) h (u, us) =
    rw
      (
        to_string-dots v vs (u, us),
        trim-eq (text v ++ dots vs) (
            All-append IsSolid (text v) (dots vs) (plain-IsSolid _ (text-Prints v u).plain)
              (dots-IsSolid vs us)),
        split-dots v vs (u, us),
      )
      (read_parts-text p (v ∷ vs) (u, us))
