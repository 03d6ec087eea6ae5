-- ===== src/HolePunch/Throttle/Calls.antt =====
-- The calls of `serve_client` of gday_hole_punch/src/server.rs that have not got the lock yet.
use gday_old.Base.{
  ℕ, zero, suc, ◌≡◌, ◌≢◌, refl, sym, ◌∙◌, ap, subst, false, Option, none, some, List, [], ◌∷◌, ◌==◌,
  get_elem?, All, arith, Bool-cases, inl, inr,
}
use gday_old.Base.Assoc.{Assoc, lookup, insert, remove, lookup-insert, lookup-remove}
use gday_old.HolePunch.Throttle.{Stream, Entering, take_entering}

-- What a stream that the loop accepts must not meet: another call for its address that has seen the
-- address unblocked and has not blocked it yet.
abbrev pub NotEntering : ℕ → List Entering → Type 0
NotEntering ip es = All (λ (x : Entering). x.stream.ip ≢ ip) es

-- No two calls of `serve_client` are for one address.
abbrev pub Apart : List Entering → Type 0
Apart [] = Unit
Apart (e ∷ es) = All (λ (x : Entering). x.stream.ip ≢ e.stream.ip) es × Apart es

-- The address of the call is not blocked.
abbrev pub Opened : Assoc (Option Stream) → Entering → Type 0
Opened blocked e = lookup e.stream.ip blocked ≡ none

-- Calls for other addresses stay open.
pub Opened-insert :
    (k : ℕ) (o : Option Stream) (m : Assoc (Option Stream)) (es : List Entering)
    → NotEntering k es
    → All (Opened m) es
    → All (Opened (insert k o m)) es
Opened-insert k o m [] n h = tt
Opened-insert k o m (e ∷ es) (n, ns) (h, hs) = (
  (let other : (k == e.stream.ip) ≡ false = ground (arith, n) in
      lookup-insert k e.stream.ip o m ∙ rw other h),
  Opened-insert k o m es ns hs,
)

pub Opened-remove :
    (k : ℕ) (m : Assoc (Option Stream)) (es : List Entering)
    → All (Opened m) es
    → All (Opened (remove k m)) es
Opened-remove k m [] h = tt
Opened-remove k m (e ∷ es) (h, hs) = (
  elim (Bool-cases (k == e.stream.ip)) [
    | inl same ↦ lookup-remove k e.stream.ip m ∙ rw same refl
    | inr other ↦ lookup-remove k e.stream.ip m ∙ rw other h
  ],
  Opened-remove k m es hs,
)

-- Calls for open addresses are not for one that is blocked.
pub blocked-NotEntering :
    (ip : ℕ) (o : Option Stream) (m : Assoc (Option Stream)) (es : List Entering)
    → lookup ip m ≡ some o
    → All (Opened m) es
    → NotEntering ip es
blocked-NotEntering ip o m [] e h = tt
blocked-NotEntering ip o m (x ∷ es) e (h, hs) = (
  λ same. let both = sym h ∙ ap (λ i. lookup i m) same ∙ e in cc,
  blocked-NotEntering ip o m es e hs,
)

-- A call that is taken out of the others.
pub record Taken (m : Assoc (Option Stream)) (e : Entering) (es : List Entering) : Type 0 where
  pub open_yet : Opened m e
  pub others : NotEntering e.stream.ip es
  pub opened : All (Opened m) es
  pub apart : Apart es

take_entering-All :
    (P : Entering → Type 0) (i : ℕ) (es : List Entering) → All P es → All P (take_entering i es)
take_entering-All P i [] h = tt
take_entering-All P zero (x ∷ es) (h, hs) = hs
take_entering-All P (suc i) (x ∷ es) (h, hs) = (h, take_entering-All P i es hs)

found_All :
    (P : Entering → Type 0) (i : ℕ) (es : List Entering) (e : Entering)
    → All P es
    → get_elem? es i ≡ some e
    → P e
found_All P i [] e h found = cc
found_All P zero (x ∷ es) e (h, hs) found = subst P (cc) h
found_All P (suc i) (x ∷ es) e (h, hs) found = found_All P i es e hs found

pub take_entering-Taken :
    (m : Assoc (Option Stream)) (i : ℕ) (es : List Entering) (e : Entering)
    → get_elem? es i ≡ some e
    → All (Opened m) es
    → Apart es
    → Taken m e (take_entering i es)
take_entering-Taken m i [] e found h a = cc
take_entering-Taken m zero (x ∷ es) e found (h, hs) (n, a) =
    let same : x ≡ e = cc found in
    record {
      open_yet = subst (Opened m) same h;
      others = subst (λ (u : Entering). NotEntering u.stream.ip es) same n;
      opened = hs;
      apart = a;
    }
take_entering-Taken m (suc i) (x ∷ es) e found (h, hs) (n, a) =
    let t = take_entering-Taken m i es e found hs a in
    let other = found_All (λ (y : Entering). y.stream.ip ≢ x.stream.ip) i es e n found in
    record {
      open_yet = t.open_yet;
      others = ((λ same. other (sym same)), t.others);
      opened = (h, t.opened);
      apart = (take_entering-All (λ (y : Entering). y.stream.ip ≢ x.stream.ip) i es n, t.apart);
    }
