-- ===== src/Textures/Resolver/Normal.antt =====
-- What `normalize` returns.
use mathlib.Core.Path.{subst}
use mathlib.Core.List.{append_assoc, append-nil}
use slavetat_ui.Base.{
  ◌≡◌, refl, arith, ap, sym, ◌∙◌, inl, inr, ◌⊎◌, Bool-cases, Option-cases, false, ◌||◌,
  if◌then◌else◌, Text, codes, eq_text, is_empty, any_of, All, [], ◌∷◌, ◌++◌, some,
}
use slavetat_ui.Textures.Resolver.{
  ok, is_separator, begins_at_root, append_segment, normalize_loop, path_or_invalid, normalize,
}
use slavetat_ui.Textures.Resolver.Segments.{
  segments, segments_from, is_colon, IsName, IsNormal, any_of-append, All-snoc,
  segments_from-append, segments_from-whole, IsPlain, first_segment, first-IsPlain, segments-local,
}

-- What `append_segment` writes.
abbrev pub joined : Text → Text → Text
joined normalized segment =
    (if is_empty normalized then normalized else normalized ++ (b'\\' ∷ [])) ++ segment

append_segment-IsName :
    (normalized segment : Text)
    → IsName segment
    → append_segment normalized segment ≡ some (joined normalized segment)
unfolding append_segment
append_segment-IsName normalized segment h = rw (h.there, h.here, h.above) refl

-- The text so far: nothing, or a normal path.
abbrev IsBuilt : Text → Type 0
IsBuilt normalized = (normalized ≡ []) ⊎ IsNormal normalized

joined-IsNormal :
    (normalized segment : Text)
    → IsBuilt normalized
    → IsName segment
    → IsNormal (joined normalized segment)
joined-IsNormal [] segment b h = rw (segments_from-whole [] segment h.whole) (h, tt)
joined-IsNormal (c ∷ cs) segment (inl e) h = cc
joined-IsNormal (c ∷ cs) segment (inr n) h =
    let split : segments (joined (c ∷ cs) segment) ≡ segments (c ∷ cs) ++ (segment ∷ []) =
      ap segments (append_assoc (c ∷ cs) (b'\\' ∷ []) segment)
      ∙ segments_from-append [] (c ∷ cs) segment
      ∙ ap (λ ss. segments (c ∷ cs) ++ ss) (segments_from-whole [] segment h.whole) in
    subst (All IsName) (sym split) (All-snoc (segments (c ∷ cs)) segment n h)

append_segment-IsBuilt :
    (normalized segment r : Text)
    → IsBuilt normalized
    → IsPlain segment
    → append_segment normalized segment ≡ some r
    → IsBuilt r
unfolding append_segment
append_segment-IsBuilt normalized segment r b p h =
    elim (Bool-cases (is_empty segment || eq_text segment (codes "."))) [
      | inl e ↦ let same : normalized ≡ r = ground (arith, h, e) in subst IsBuilt same b
      | inr e ↦ elim (Bool-cases (eq_text segment (codes ".."))) [
        | inl f ↦ ground (arith, h, e, f)
        | inr f ↦
            let same : joined normalized segment ≡ r = ground (arith, h, e, f) in
            let name : IsName segment = record {
              whole = p.0;
              local = p.1;
              there = ground (arith, e);
              here = ground (arith, e);
              above = f;
            } in
            inr (subst IsNormal same (joined-IsNormal normalized segment b name))
      ]
    ]

normalize_loop-IsBuilt :
    (normalized segment path r : Text)
    → IsBuilt normalized
    → IsPlain segment
    → any_of is_colon path ≡ false
    → normalize_loop normalized segment path ≡ some r
    → IsBuilt r
unfolding normalize_loop
normalize_loop-IsBuilt normalized segment [] r b p l h =
    append_segment-IsBuilt normalized segment r b p h
normalize_loop-IsBuilt normalized segment (c ∷ cs) r b p l h =
    let rest : any_of is_colon cs ≡ false = ground (arith, l) in
    elim (Bool-cases (is_separator c)) [
      | inr e ↦
          normalize_loop-IsBuilt normalized (segment ++ (c ∷ [])) cs r b
            (
              ground (arith, e, p.0, any_of-append is_separator segment (c ∷ [])),
              ground (arith, l, p.1, any_of-append is_colon segment (c ∷ [])),
            )
            rest (ground (arith, h, e))
      | inl e ↦ elim (Option-cases (append_segment normalized segment)) [
        | inl f ↦ ground (arith, h, e, f)
        | inr (next, f) ↦
            normalize_loop-IsBuilt next [] cs r
              (append_segment-IsBuilt normalized segment next b p f) (refl, refl) rest
              (ground (arith, h, e, f))
      ]
    ]

joined-joined :
    (normalized segment rest : Text)
    → is_empty segment ≡ false
    → joined (joined normalized segment) rest ≡ joined normalized (segment ++ (b'\\' ∷ rest))
joined-joined [] [] rest h = cc
joined-joined [] (x ∷ xs) rest h = append_assoc (x ∷ xs) (b'\\' ∷ []) rest
joined-joined (c ∷ cs) segment rest h =
    append_assoc (joined (c ∷ cs) segment) (b'\\' ∷ []) rest
    ∙ append_assoc ((c ∷ cs) ++ (b'\\' ∷ [])) segment (b'\\' ∷ rest)

-- The loop keeps names as they are.
normalize_loop-names :
    (normalized segment path : Text)
    → All IsName (segments_from segment path)
    → normalize_loop normalized segment path ≡ some (joined normalized (segment ++ path))
unfolding normalize_loop
normalize_loop-names normalized segment [] h =
    append_segment-IsName normalized segment h.0
    ∙ ap (λ s. some (joined normalized s)) (sym (append-nil segment))
normalize_loop-names normalized segment (c ∷ cs) h = elim (first_segment segment c cs h) [
  | inl (e, name, names) ↦
      rw (e, append_segment-IsName normalized segment name)
        (normalize_loop-names (joined normalized segment) [] cs names
          ∙ ap some (joined-joined normalized segment cs name.there))
  | inr (e, names) ↦
      let longer = first-IsPlain (segment ++ (c ∷ [])) cs names in
      let plain : is_separator c ≡ false =
        ground (arith, longer.0, any_of-append is_separator segment (c ∷ [])) in
      rw plain (
        normalize_loop-names normalized (segment ++ (c ∷ [])) cs names
        ∙ ap (λ s. some (joined normalized s)) (append_assoc segment (c ∷ []) cs))
]

normalize_inside :
    (path : Text)
    → is_empty path ≡ false
    → begins_at_root path ≡ false
    → any_of is_colon path ≡ false
    → normalize path ≡ path_or_invalid (normalize_loop [] [] path)
unfolding normalize
normalize_inside path a b c = rw (a, b, c) refl

normal_again : (path : Text) → IsNormal path → normalize path ≡ ok path
normal_again [] h = cc (h.0.there)
normal_again (c ∷ cs) h =
    let local = segments-local [] (c ∷ cs) h in
    let kept = normalize_loop-names [] [] (c ∷ cs) h in
    let inside : begins_at_root (c ∷ cs) ≡ false = elim (first_segment [] c cs h) [
      | inl (e, name, names) ↦ ground (arith, name.there)
      | inr (e, names) ↦ ground (arith, (first-IsPlain (c ∷ []) cs names).0)
    ] in
    normalize_inside (c ∷ cs) refl inside local ∙ ap path_or_invalid kept

normalize_inv :
    (path r : Text)
    → normalize path ≡ ok r
    → (any_of is_colon path ≡ false) × (normalize_loop [] [] path ≡ some r) × (is_empty r ≡ false)
unfolding normalize
normalize_inv path r h =
    elim (Bool-cases (is_empty path || begins_at_root path || any_of is_colon path)) [
      | inl e ↦ ground (arith, h, e)
      | inr e ↦
          let local : any_of is_colon path ≡ false = ground (arith, e) in
          let reached : path_or_invalid (normalize_loop [] [] path) ≡ ok r = ground (arith, h, e) in
          elim (Option-cases (normalize_loop [] [] path)) [
            | inl f ↦ ground (arith, reached, f)
            | inr ([], f) ↦ ground (arith, reached, f)
            | inr (x ∷ xs, f) ↦
                let same : x ∷ xs ≡ r = ground (arith, reached, f) in
                (local, f ∙ ap some same, subst (λ t. is_empty t ≡ false) same refl)
          ]
    ]

-- A path that is normalized to a text consists there of segments between backslashes that are not
-- empty, not a dot and not two dots, and have no separator and no colon; and normalizing that text
-- gives it back.
pub normalize-IsNormal : (path r : Text) → normalize path ≡ ok r → IsNormal r × (normalize r ≡ ok r)
normalize-IsNormal path r h =
    let (local, loop, some_text) = normalize_inv path r h in
    elim (normalize_loop-IsBuilt [] [] path r (inl refl) (refl, refl) local loop) [
      | inl e ↦ ground (arith, e, some_text)
      | inr n ↦ (n, normal_again r n)
    ]
