-- ===== src/Finder/Near.antt =====
-- The valid addresses of getAddress in lib/servicefinder.cpp: those that a network of the machine
-- reaches.
use Prim.Native.Nat.{bit_and}
use qt_rpc.Base.{
  ℕ, ◌≡◌, ◌≢◌, ◌↔◌, refl, sym, ap, subst, true, List, [], ◌∷◌, ◌==◌, arith, inl, inr, Any,
  Any-append, Bool-cases,
}
use qt_rpc.Finder.{in_network, reaches, per_interface, valid}

module _ {A : Type 0} (ipv4 : A → ℕ) where
  -- An entry of an interface, an IPv4 address with its mask, that has the address in its network.
  abbrev pub Reaches : A → A × A → Type 0
  Reaches a (ip, mask) =
      (ipv4 ip ≢ 0) × (bit_and (ipv4 ip) (ipv4 mask) ≡ bit_and (ipv4 a) (ipv4 mask))

  -- An IPv4 address of the list that an entry of an interface reaches.
  abbrev pub IsNear : A → List A → List (List (A × A)) → Type 0
  IsNear a addresses interfaces =
      Any (λ b. b ≡ a) addresses
      × (ipv4 a ≢ 0)
      × Any (λ (i : List (A × A)). Any (Reaches a) i) interfaces

  in_network_iff : (a : A) (e : A × A) → (in_network ipv4 a e ≡ true) ↔ Reaches a e
  in_network_iff a (ip, mask) = ground arith

  reaches_iff : (a : A) (es : List (A × A)) → (reaches ipv4 a es ≡ true) ↔ Any (Reaches a) es
  unfolding reaches
  reaches_iff a [] = ground arith
  reaches_iff a (e ∷ es) = elim (Bool-cases (in_network ipv4 a e)) [
    | inl reached ↦ rw (reaches, reached) ((λ h. inl ((in_network_iff a e).0 reached)), λ h. refl)
    | inr missed ↦
        rw (reaches, missed)
          (
            (λ h. inr ((reaches_iff a es).0 h)),
            λ h. elim h [
              | inl here ↦ absurd (ground (arith, missed, (in_network_iff a e).1 here))
              | inr later ↦ (reaches_iff a es).1 later
            ],
          )
  ]

  per_interface_iff :
      (b a : A) (is : List (List (A × A)))
      → Any (λ c. c ≡ a) (per_interface ipv4 b is)
        ↔ ((b ≡ a) × Any (λ (i : List (A × A)). Any (Reaches b) i) is)
  unfolding per_interface
  per_interface_iff b a [] = ((λ h. absurd h), λ h. absurd h.1)
  per_interface_iff b a (i ∷ is) =
      let rest = per_interface_iff b a is in
      elim (Bool-cases (reaches ipv4 b i)) [
        | inl reached ↦
            rw (per_interface, reached)
              (
                (λ h. elim h [
                  | inl same ↦ (same, inl ((reaches_iff b i).0 reached))
                  | inr later ↦ ((rest.0 later).0, inr (rest.0 later).1)
                ]),
                λ h. inl h.0,
              )
        | inr missed ↦
            rw (per_interface, missed)
              (
                (λ h. ((rest.0 h).0, inr (rest.0 h).1)),
                λ h. elim h.1 [
                  | inl here ↦ absurd (ground (arith, missed, (reaches_iff b i).1 here))
                  | inr later ↦ rest.1 (h.0, later)
                ],
              )
      ]

  -- An address is valid exactly if the lookup found it, it is an IPv4 address, and an entry of an
  -- interface reaches it.
  pub valid_iff :
      (a : A) (interfaces : List (List (A × A))) (addresses : List A)
      → Any (λ b. b ≡ a) (valid ipv4 interfaces addresses) ↔ IsNear a addresses interfaces
  unfolding valid
  valid_iff a is [] = ((λ h. absurd h), λ h. absurd h.0)
  valid_iff a is (b ∷ more) =
      let rest = valid_iff a is more in
      elim (Bool-cases (ipv4 b == 0)) [
        | inl other ↦
            rw (valid, other)
              (
                (λ h. (inr (rest.0 h).0, (rest.0 h).1, (rest.0 h).2)),
                λ h. elim h.0 [
                  | inl same ↦
                      let e : ipv4 b ≡ ipv4 a = ap ipv4 same in
                      absurd (ground (arith, other, e, h.1))
                  | inr later ↦ rest.1 (later, h.1, h.2)
                ],
              )
        | inr real ↦
            let split = Any-append (λ c. c ≡ a) (per_interface ipv4 b is) (valid ipv4 is more) in
            let per = per_interface_iff b a is in
            rw (valid, real)
              (
                (λ h. elim (split.0 h) [
                  | inl here ↦
                      let (same, some_reach) = per.0 here in
                      let real_a : ipv4 b ≢ 0 = ground (arith, real) in
                      (
                        inl same,
                        subst (λ (c : A). ipv4 c ≢ 0) same real_a,
                        subst (λ (c : A). Any (λ (i : List (A × A)). Any (Reaches c) i) is) same
                            some_reach,
                      )
                  | inr later ↦ (inr (rest.0 later).0, (rest.0 later).1, (rest.0 later).2)
                ]),
                λ h. elim h.0 [
                  | inl same ↦ split.1 (
                      inl (
                        per.1 (
                          same,
                          subst (λ (c : A). Any (λ (i : List (A × A)). Any (Reaches c) i) is)
                              (sym same) h.2,
                        )))
                  | inr later ↦ split.1 (inr (rest.1 (later, h.1, h.2)))
                ],
              )
      ]
