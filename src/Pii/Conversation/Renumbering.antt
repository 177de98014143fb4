-- ===== src/Pii/Conversation/Renumbering.antt =====
-- The names that the placeholders of all messages get in the conversation.
use mathlib.Core.Option
use alice_skilltech_tools.Prelude.{
  ℕ, suc, false, ◌&&◌, ◌≡◌, sym, ◌∙◌, ap, none, some, List, arith, ltb, Bool-cases, Option-cases,
  inl, inr,
}
use alice_skilltech_tools.Store.Metrics.{text_eq}
use alice_skilltech_tools.Pii.Stream.{surface_of}
use alice_skilltech_tools.Pii.Conversation.{
  Python, Local, Numbering, placeholder_type, global_of, count_of, global_placeholder, new_name,
  name_of,
}
use alice_skilltech_tools.Pii.Conversation.Texts.{
  text_eq_refl, text_eq→≡, IsNumeral, global_placeholder-type, global_placeholder-number,
}

module _ (python : Python) (numeral : IsNumeral python.decimal) where
  -- Every name stands for one type and one lowered surface; the next numbers of every type are free.
  pub record IsUnambiguous (r : Numbering) : Type 0 where
    pub names :
        (type lowered global : List ℕ)
        → global_of type lowered r.surface_to_global ≡ some global
        → Option.map python.lower (surface_of global r.global_map) ≡ some lowered
    pub free :
        (type : List ℕ) (n : ℕ)
        → ltb n (count_of type r.type_counts) ≡ false
        → surface_of (global_placeholder python type (suc n)) r.global_map ≡ none

  -- Names that were given stay.
  abbrev pub Keeps : Numbering → Numbering → Type 0
  Keeps r r' =
      (type lowered global : List ℕ)
      → global_of type lowered r.surface_to_global ≡ some global
      → global_of type lowered r'.surface_to_global ≡ some global

  new_name-names :
      (type surface t lowered g : List ℕ) (r : Numbering)
      → IsUnambiguous r
      → global_of t lowered (new_name python type surface r).1.surface_to_global ≡ some g
      → Option.map python.lower (surface_of g (new_name python type surface r).1.global_map)
        ≡ some lowered
  unfolding new_name global_of surface_of
  new_name-names type surface t lowered g r u h =
      let made : List ℕ = global_placeholder python type (suc (count_of type r.type_counts)) in
      elim (Bool-cases (text_eq type t && text_eq (python.lower surface) lowered)) [
        | inl e ↦
            let same : made ≡ g = ground (arith, e, h) in
            let lows : python.lower surface ≡ lowered =
              text_eq→≡ (python.lower surface) lowered (ground (arith, e)) in
            ground (arith, ap (text_eq made) same, text_eq_refl made, lows)
        | inr e ↦
            let old = u.names t lowered g (ground (arith, e, h)) in
            elim (Bool-cases (text_eq made g)) [
              | inl k ↦
                  let unused : surface_of made r.global_map ≡ none =
                    u.free type (count_of type r.type_counts) (ground arith) in
                  absurd (
                    ground (
                      arith,
                      old,
                      unused,
                      ap (λ x. surface_of x r.global_map) (text_eq→≡ made g k),
                    ))
              | inr k ↦ ground (arith, k, old)
            ]
      ]

  new_name-free :
      (type surface t : List ℕ) (n : ℕ) (r : Numbering)
      → IsUnambiguous r
      → ltb n (count_of t (new_name python type surface r).1.type_counts) ≡ false
      → surface_of
          (global_placeholder python t (suc n))
          (new_name python type surface r).1.global_map
        ≡ none
  unfolding new_name count_of surface_of
  new_name-free type surface t n r u h =
      let c : ℕ = count_of type r.type_counts in
      let made : List ℕ = global_placeholder python type (suc c) in
      elim (Bool-cases (text_eq made (global_placeholder python t (suc n)))) [
        | inl k ↦
            let same : made ≡ global_placeholder python t (suc n) = text_eq→≡ made _ k in
            let types : type ≡ t =
              global_placeholder-type python numeral type t (suc c) (suc n) same in
            let numbers : suc c ≡ suc n =
              global_placeholder-number python numeral t (suc c) (suc n)
                (ap (λ s. global_placeholder python s (suc c)) (sym types) ∙ same) in
            absurd (ground (arith, numbers, h, ap (text_eq type) types, text_eq_refl type))
        | inr k ↦ elim (Bool-cases (text_eq type t)) [
          | inl e ↦
              let types : type ≡ t = text_eq→≡ type t e in
              ground (arith, k, e, h, u.free t n, ap (λ s. count_of s r.type_counts) types)
          | inr e ↦ ground (arith, k, e, h, u.free t n)
        ]
      ]

  new_name-IsUnambiguous :
      (type surface : List ℕ) (r : Numbering)
      → IsUnambiguous r
      → IsUnambiguous (new_name python type surface r).1
  new_name-IsUnambiguous type surface r u = record {
    names = λ t lowered g h. new_name-names type surface t lowered g r u h;
    free = λ t n h. new_name-free type surface t n r u h;
  }

  new_name-Keeps :
      (type surface : List ℕ) (r : Numbering)
      → global_of type (python.lower surface) r.surface_to_global ≡ none
      → Keeps r (new_name python type surface r).1
  unfolding new_name global_of
  new_name-Keeps type surface r absent t lowered g h =
      elim (Bool-cases (text_eq type t && text_eq (python.lower surface) lowered)) [
        | inl e ↦
            let types : type ≡ t = text_eq→≡ type t (ground (arith, e)) in
            let lows : python.lower surface ≡ lowered =
              text_eq→≡ (python.lower surface) lowered (ground (arith, e)) in
            absurd (
              ground (
                arith,
                h,
                absent,
                ap (λ x. global_of x (python.lower surface) r.surface_to_global) types,
                ap (λ x. global_of t x r.surface_to_global) lows,
              ))
        | inr e ↦ ground (arith, e, h)
      ]

  -- What one local placeholder leads to.
  pub record IsNamed (l : Local) (r : Numbering) (g : List ℕ) (r' : Numbering) : Type 0 where
    pub unambiguous : IsUnambiguous r'
    pub keeps : Keeps r r'
    pub named :
        global_of (placeholder_type l.placeholder) (python.lower l.surface) r'.surface_to_global
        ≡ some g

  new_name-named :
      (type surface : List ℕ) (r : Numbering)
      → global_of type (python.lower surface) (new_name python type surface r).1.surface_to_global
        ≡ some (new_name python type surface r).0
  unfolding new_name global_of
  new_name-named type surface r =
      ground (arith, text_eq_refl type, text_eq_refl (python.lower surface))

  pub name_of-IsNamed :
      (l : Local) (r : Numbering)
      → IsUnambiguous r
      → IsNamed l r (name_of python l r).0 (name_of python l r).1
  unfolding name_of
  name_of-IsNamed l r u =
      let type = placeholder_type l.placeholder in
      elim (Option-cases (global_of type (python.lower l.surface) r.surface_to_global)) [
        | inl e ↦
            rw (e, name_of)
              (record {
                unambiguous = new_name-IsUnambiguous type l.surface r u;
                keeps = new_name-Keeps type l.surface r e;
                named = new_name-named type l.surface r;
              })
        | inr (g, e) ↦
            rw (e, name_of) (record { unambiguous = u; keeps = λ t lowered g' h. h; named = e })
      ]
