-- ===== src/Textures/Resolver/Segments.antt =====
-- The segments of a path.
use mathlib.Core.Path.{subst}
use mathlib.Core.List.{append_assoc, append-nil}
use slavetat_ui.Base.{
  ℕ, ◌≡◌, refl, arith, ap, sym, ◌∙◌, inl, inr, ◌⊎◌, Bool-cases, Bool, true, false, ◌==◌,
  if◌then◌else◌, Text, codes, eq_text, is_empty, any_of, All, List, [], ◌∷◌, ◌++◌,
}
use slavetat_ui.Textures.Resolver.{is_separator}

-- The segments of a path: what stands between its backslashes.
abbrev pub segments_from : Text → Text → List Text
segments_from segment [] = segment ∷ []
segments_from segment (c ∷ cs) =
    let next = segments_from [] cs in
    let longer = segments_from (segment ++ (c ∷ [])) cs in
    if c == b'\\' then segment ∷ next else longer

abbrev pub segments : Text → List Text
segments path = segments_from [] path

abbrev pub is_colon : ℕ → Bool
is_colon c = c == b':'

-- A segment that names something.
pub record IsName (segment : Text) : Type 0 where
  pub whole : any_of is_separator segment ≡ false
  pub local : any_of is_colon segment ≡ false
  pub there : is_empty segment ≡ false
  pub here : eq_text segment (codes ".") ≡ false
  pub above : eq_text segment (codes "..") ≡ false

-- A path of names, each but the first after a backslash.
abbrev pub IsNormal : Text → Type 0
IsNormal path = All IsName (segments path)

pub any_of-append :
    (p : ℕ → Bool) (xs ys : Text)
    → any_of p (xs ++ ys) ≡ (if any_of p xs then true else any_of p ys)
any_of-append p [] ys = refl
any_of-append p (x ∷ xs) ys = ground (arith, any_of-append p xs ys)

pub All-snoc : (xs : List Text) (x : Text) → All IsName xs → IsName x → All IsName (xs ++ (x ∷ []))
All-snoc [] x h k = (k, tt)
All-snoc (y ∷ ys) x h k = (h.0, All-snoc ys x h.1 k)

pub segments_from-append :
    (segment path rest : Text)
    → segments_from segment (path ++ (b'\\' ∷ rest)) ≡ segments_from segment path ++ segments rest
segments_from-append segment [] rest = refl
segments_from-append segment (c ∷ cs) rest = elim (Bool-cases (c == b'\\')) [
  | inl e ↦ rw e (ap (λ ss. segment ∷ ss) (segments_from-append [] cs rest))
  | inr e ↦ rw e (segments_from-append (segment ++ (c ∷ [])) cs rest)
]

-- A path without separators is one segment.
pub segments_from-whole :
    (segment path : Text)
    → any_of is_separator path ≡ false
    → segments_from segment path ≡ (segment ++ path) ∷ []
segments_from-whole segment [] h = ap (λ s. s ∷ []) (sym (append-nil segment))
segments_from-whole segment (c ∷ cs) h =
    let plain : (c == b'\\') ≡ false = ground (arith, h) in
    let later : any_of is_separator cs ≡ false = ground (arith, h) in
    rw plain (
      segments_from-whole (segment ++ (c ∷ [])) cs later
      ∙ ap (λ s. s ∷ []) (append_assoc segment (c ∷ []) cs))

-- Clear of separators and colons.
abbrev pub IsPlain : Text → Type 0
IsPlain segment = (any_of is_separator segment ≡ false) × (any_of is_colon segment ≡ false)

-- The segments from a character on, if it is a backslash, and if not.
pub first_segment :
    (segment : Text) (c : ℕ) (cs : Text)
    → All IsName (segments_from segment (c ∷ cs))
    → ((c ≡ b'\\') × IsName segment × All IsName (segments cs))
      ⊎ (((c == b'\\') ≡ false) × All IsName (segments_from (segment ++ (c ∷ [])) cs))
first_segment segment c cs h =
    let family : Bool → Type 0 = λ b.
      All IsName (if b then segment ∷ segments cs else segments_from (segment ++ (c ∷ [])) cs) in
    elim (Bool-cases (c == b'\\')) [
      | inl e ↦
          let k : All IsName (segment ∷ segments cs) = subst family e h in
          inl (ground (arith, e), k.0, k.1)
      | inr e ↦ inr (e, subst family e h)
    ]

pub first-IsPlain :
    (segment path : Text) → All IsName (segments_from segment path) → IsPlain segment
first-IsPlain segment [] h = (h.0.whole, h.0.local)
first-IsPlain segment (c ∷ cs) h = elim (first_segment segment c cs h) [
  | inl (e, name, names) ↦ (name.whole, name.local)
  | inr (e, names) ↦
      let longer = first-IsPlain (segment ++ (c ∷ [])) cs names in
      (
        ground (arith, longer.0, any_of-append is_separator segment (c ∷ [])),
        ground (arith, longer.1, any_of-append is_colon segment (c ∷ [])),
      )
]

pub segments-local :
    (segment path : Text) → All IsName (segments_from segment path) → any_of is_colon path ≡ false
segments-local segment [] h = refl
segments-local segment (c ∷ cs) h = elim (first_segment segment c cs h) [
  | inl (e, name, names) ↦ ground (arith, e, segments-local [] cs names)
  | inr (e, names) ↦
      let longer = first-IsPlain (segment ++ (c ∷ [])) cs names in
      ground (
        arith,
        longer.1,
        any_of-append is_colon segment (c ∷ []),
        segments-local (segment ++ (c ∷ [])) cs names,
      )
]
