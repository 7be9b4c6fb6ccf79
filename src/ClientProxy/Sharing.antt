-- ===== src/ClientProxy/Sharing.antt =====
-- ServiceData of lib/clientproxy.cpp: the proxies that share a service, and the one of them that
-- answers its callbacks.
use qt_rpc.Base.{
  ℕ, ◌≡◌, inl, inr, refl, Bool, true, false, Option, none, some, List, [], ◌∷◌, ◌++◌, ◌==◌, ◌||◌,
  not, ◌&&◌, if◌then◌else◌, arith, ap, ◌∙◌, Bool-cases, Option-cases,
}
use qt_rpc.Base.Table.{is_in}
use qt_rpc.ClientProxy.{
  ServiceData, add_proxy, remove_proxy, remove_all, first, is_primary_of, callback_receiver,
  event_receivers,
}

-- The primary proxy is one of the list, and there is one unless the list is empty.
abbrev pub has_primary : Option ℕ → List ℕ → Bool
has_primary none [] = true
has_primary none (p ∷ ps) = false
has_primary (some r) ps = is_in r ps

abbrev pub IsShared : ServiceData → Type 0
IsShared d = has_primary d.primary d.list ≡ true

is_in-append : (r p : ℕ) (ps : List ℕ) → is_in r (ps ++ p ∷ []) ≡ is_in r ps || p == r
is_in-append r p [] = ground arith
is_in-append r p (s ∷ ps) = ground (arith, is_in-append r p ps)

is_in-remove_all : (r p : ℕ) (ps : List ℕ) → is_in r (remove_all p ps) ≡ is_in r ps && not (p == r)
unfolding remove_all
is_in-remove_all r p [] = ground arith
is_in-remove_all r p (s ∷ ps) = ground (arith, is_in-remove_all r p ps)

has_primary-first : (ps : List ℕ) → has_primary (first ps) ps ≡ true
has_primary-first [] = refl
has_primary-first (p ∷ ps) = ground arith

add_primary :
    (o : Option ℕ) (ps : List ℕ) (p : ℕ)
    → has_primary o ps ≡ true
    → has_primary (elim o [ none ↦ some p | some r ↦ some r ]) (ps ++ p ∷ []) ≡ true
add_primary none [] p h = ground arith
add_primary none (r ∷ rs) p h = absurd (ground (arith, h))
add_primary (some r) ps p h = ground (arith, h, is_in-append r p ps)

remove_primary :
    (o : Option ℕ) (ps : List ℕ) (p : ℕ)
    → has_primary o ps ≡ true
    → has_primary (if is_primary_of p o then first (remove_all p ps) else o) (remove_all p ps)
      ≡ true
unfolding remove_all
remove_primary none [] p h = refl
remove_primary none (r ∷ rs) p h = absurd (ground (arith, h))
remove_primary (some r) ps p h = elim (Bool-cases (r == p)) [
  | inl it ↦ rw it (has_primary-first (remove_all p ps))
  | inr another ↦ rw another (ground (arith, h, another, is_in-remove_all r p ps))
]

no_primary : (o : Option ℕ) (ps : List ℕ) → has_primary o ps ≡ true → o ≡ none → first ps ≡ o
no_primary none [] h e = refl
no_primary none (p ∷ ps) h e = absurd (ground (arith, h))
no_primary (some r) ps h e = absurd (ground (arith, e))

receiver_IsShared : (d : ServiceData) → IsShared d → callback_receiver d ≡ (d.primary, d)
unfolding callback_receiver
receiver_IsShared d h = elim (Option-cases d.primary) [
  | inl e ↦
      let same = no_primary d.primary d.list h e in
      rw (callback_receiver, e)
        (ap (λ (o : Option ℕ). (o, record d { primary = o })) same
          ∙ ap (λ (o : Option ℕ). (o, record d { primary = o })) e)
  | inr (r, e) ↦
      rw (callback_receiver, e) (ap (λ (o : Option ℕ). (some r, record d { primary = o })) e)
]

-- Sharing a service and leaving it keep a primary proxy among the proxies that share it, which are
-- those before and the new one, or those before but the one that left; a callback then goes to one
-- of them, or to none if there is none, and changes nothing.
pub proxies-IsShared :
    (d : ServiceData) (p : ℕ)
    → IsShared d
    → IsShared (add_proxy p d)
      × IsShared (remove_proxy p d)
      × ((r : ℕ)
          → is_in r (event_receivers (add_proxy p d)) ≡ is_in r (event_receivers d) || p == r)
      × ((r : ℕ)
          → is_in r (event_receivers (remove_proxy p d))
            ≡ is_in r (event_receivers d) && not (p == r))
      × (callback_receiver d ≡ (d.primary, d))
unfolding add_proxy remove_proxy callback_receiver
proxies-IsShared d p h = (
  add_primary d.primary d.list p h,
  remove_primary d.primary d.list p h,
  λ r. is_in-append r p d.list,
  λ r. is_in-remove_all r p d.list,
  receiver_IsShared d h,
)
