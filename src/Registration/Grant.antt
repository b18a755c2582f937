-- ===== src/Registration/Grant.antt =====
-- src/hermes_voip/registration.py: the lifetime that a flow takes from the registrar.
use hermes_voip.Base.{
  ℕ, ◌≡◌, refl, sym, ap, subst, ◌∙◌, true, false, ==_iff, ◌⊎◌, List, [], ◌∷◌, ◌++◌, All, Option,
  none, some, Option-cases, Bool-cases, arith, inl, inr,
}
use hermes_voip.Base.Text.{Text, same_text}
use hermes_voip.Base.Text.Laws.{and_parts, and_join, same_text→≡, same_text_refl}
use hermes_voip.Message.{header, headers_all, parse_decimal}
use hermes_voip.Message.Parse.{SipResponse}
use hermes_voip.Registration.Binding.{
  Binding, bindings, expires_token, same_binding, effective_port, same_port, split_binding,
  contact_binding_matches, binding_uri,
}
use hermes_voip.Registration.Flow.{
  RegistrationFlow, contact_name, is_ours, find_ours, chosen, granted_expires, expires_of,
  expires_name, ViaTransport, tls, wss, udp, tcp, transport_port,
}

≡→same_text : {s t : Text} → s ≡ t → same_text s t ≡ true
≡→same_text {s} e = subst (λ t. same_text s t ≡ true) e (same_text_refl s)

same_port→≡ : (a b : Option ℕ) → same_port a b ≡ true → a ≡ b
same_port→≡ none none h = refl
same_port→≡ none (some n) h = absurd (ground arith)
same_port→≡ (some m) none h = absurd (ground arith)
same_port→≡ (some m) (some n) h = ap (λ (x : ℕ). some x) ((==_iff m n).0 h)

same_port_refl : (a : Option ℕ) → same_port a a ≡ true
same_port_refl none = refl
same_port_refl (some n) = (==_iff n n).1 refl

≡→same_port : {a b : Option ℕ} → a ≡ b → same_port a b ≡ true
≡→same_port {a} e = subst (λ b. same_port a b ≡ true) e (same_port_refl a)

some-injective : {x y : Binding} → some x ≡ some y → x ≡ y
some-injective e = cc

-- The port of the transport where none is written.
abbrev pub IsDefault : ViaTransport → ℕ → Type 0
IsDefault tls n = n ≡ 5061
IsDefault wss n = n ≡ 5061
IsDefault udp n = n ≡ 5060
IsDefault tcp n = n ≡ 5060

abbrev pub HasPort : ViaTransport → Binding → ℕ → Type 0
HasPort v b n = (b.port ≡ some n) ⊎ ((b.port ≡ none) × IsDefault v n)

port-IsDefault : (v : ViaTransport) → IsDefault v (transport_port v)
port-IsDefault tls = refl
port-IsDefault wss = refl
port-IsDefault udp = refl
port-IsDefault tcp = refl

IsDefault-port :
    (v : ViaTransport) (n : ℕ)
    → IsDefault v n
    → ◌≡◌ {A = Option ℕ} (some (transport_port v)) (some n)
IsDefault-port tls n e = rw e refl
IsDefault-port wss n e = rw e refl
IsDefault-port udp n e = rw e refl
IsDefault-port tcp n e = rw e refl

module _ (lower_text : Text → Text) where
  find_ours-append :
      (f : RegistrationFlow) (others : List Text) (mine : Text) (more : List Text)
      → All (λ (b : Text). is_ours lower_text f b ≡ false) others
      → is_ours lower_text f mine ≡ true
      → find_ours lower_text f (others ++ (mine ∷ more)) ≡ some mine
  unfolding find_ours
  find_ours-append f [] mine more a m = rw m refl
  find_ours-append f (b ∷ others) mine more (h, a) m =
      rw h (find_ours-append f others mine more a m)

  -- What two bindings that are compared as the same have in common.
  abbrev Same : Option ℕ → Binding → Binding → Type 0
  Same d a b =
      (lower_text a.scheme ≡ lower_text b.scheme)
      × (a.userinfo ≡ b.userinfo)
      × (lower_text a.host ≡ lower_text b.host)
      × (effective_port lower_text d a ≡ effective_port lower_text d b)

  same_binding-Same :
      (d : Option ℕ) (a b : Binding) → same_binding lower_text d a b ≡ true → Same d a b
  unfolding same_binding
  same_binding-Same d a b h =
      let (s, rest) = and_parts (same_text (lower_text a.scheme) (lower_text b.scheme)) _ h in
      let (u, rest2) = and_parts (same_text a.userinfo b.userinfo) _ rest in
      let (o, p) = and_parts (same_text (lower_text a.host) (lower_text b.host)) _ rest2 in
      (
        same_text→≡ (lower_text a.scheme) (lower_text b.scheme) s,
        same_text→≡ a.userinfo b.userinfo u,
        same_text→≡ (lower_text a.host) (lower_text b.host) o,
        same_port→≡ (effective_port lower_text d a) (effective_port lower_text d b) p,
      )

  Same-same_binding :
      (d : Option ℕ) (a b : Binding) → Same d a b → same_binding lower_text d a b ≡ true
  unfolding same_binding
  Same-same_binding d a b (s, u, o, p) =
      and_join (same_text (lower_text a.scheme) (lower_text b.scheme)) _ (≡→same_text s) (
        and_join (same_text a.userinfo b.userinfo) _ (≡→same_text u) (
          and_join (same_text (lower_text a.host) (lower_text b.host)) _ (≡→same_text o)
            (≡→same_port p)))

  -- Two texts that match are one text, or both are read as bindings that are the same.
  abbrev Matches : Option ℕ → Text → Text → Type 0
  Matches d a b =
      (a ≡ b)
      ⊎ ((x y : Binding) × (split_binding a ≡ some x) × (split_binding b ≡ some y) × Same d x y)

  contact-Matches :
      (d : Option ℕ) (a b : Text) → contact_binding_matches lower_text a b d ≡ true → Matches d a b
  unfolding contact_binding_matches
  contact-Matches d a b h = elim (Bool-cases (same_text a b)) [
    | inl same ↦ inl (same_text→≡ a b same)
    | inr differ ↦ elim (Option-cases (split_binding a)) [
      | inl none_a ↦ absurd (ground (arith, rw (differ, none_a) at h))
      | inr (x, p) ↦ elim (Option-cases (split_binding b)) [
        | inl none_b ↦ absurd (ground (arith, rw (differ, p, none_b) at h))
        | inr (y, q) ↦ inr (x, y, p, q, same_binding-Same d x y (rw (differ, p, q) at h))
      ]
    ]
  ]

  Matches-contact :
      (d : Option ℕ) (a b : Text) → Matches d a b → contact_binding_matches lower_text a b d ≡ true
  unfolding contact_binding_matches
  Matches-contact d a b (inl e) = rw (contact_binding_matches, ≡→same_text e) refl
  Matches-contact d a b (inr (x, y, p, q, s)) = elim (Bool-cases (same_text a b)) [
    | inl same ↦ rw (contact_binding_matches, same) refl
    | inr differ ↦ rw (contact_binding_matches, differ, p, q) (Same-same_binding d x y s)
  ]

  -- A Contact that names the flow's own binding: the same text, or the same scheme, user and host, of
  -- which scheme and host in any case, and the same port, where an omitted port is that of the
  -- transport.
  abbrev pub IsOwn : RegistrationFlow → Text → Type 0
  IsOwn f b =
      (binding_uri b ≡ f.contact_uri)
      ⊎ ((x y : Binding) × (n : ℕ) × (split_binding (binding_uri b) ≡ some x)
          × (split_binding f.contact_uri ≡ some y)
          × (lower_text x.scheme ≡ lower_text y.scheme)
          × (x.userinfo ≡ y.userinfo)
          × (lower_text x.host ≡ lower_text y.host)
          × HasPort f.cfg.transport x n
          × HasPort f.cfg.transport y n)

  HasPort-effective :
      (v : ViaTransport) (x : Binding) (n : ℕ)
      → HasPort v x n
      → effective_port lower_text (some (transport_port v)) x ≡ some n
  HasPort-effective v x n (inl e) = rw e refl
  HasPort-effective v x n (inr (e, standard)) = rw e (IsDefault-port v n standard)

  effective-HasPort :
      (v : ViaTransport) (x : Binding)
      → (n : ℕ) × HasPort v x n × (effective_port lower_text (some (transport_port v)) x ≡ some n)
  effective-HasPort v x = elim (Option-cases x.port) [
    | inl e ↦ (transport_port v, inr (e, port-IsDefault v), rw e refl)
    | inr (n, e) ↦ (n, inl e, rw e refl)
  ]

  pub is_ours-IsOwn : (f : RegistrationFlow) (b : Text) → is_ours lower_text f b ≡ true → IsOwn f b
  is_ours-IsOwn f b h = elim (contact-Matches _ (binding_uri b) f.contact_uri h) [
    | inl e ↦ inl e
    | inr (x, y, p, q, (s, u, o, same)) ↦
        let (n, here, e) = effective-HasPort f.cfg.transport x in
        let (m, there, k) = effective-HasPort f.cfg.transport y in
        let at : m ≡ n = cc in
        inr (x, y, n, p, q, s, u, o, here, subst (HasPort f.cfg.transport y) at there)
  ]

  pub IsOwn-is_ours : (f : RegistrationFlow) (b : Text) → IsOwn f b → is_ours lower_text f b ≡ true
  IsOwn-is_ours f b (inl e) = Matches-contact _ (binding_uri b) f.contact_uri (inl e)
  IsOwn-is_ours f b (inr (x, y, n, p, q, s, u, o, here, there)) =
      Matches-contact _ (binding_uri b) f.contact_uri (
        inr (
          x,
          y,
          p,
          q,
          (
            s,
            u,
            o,
            HasPort-effective f.cfg.transport x n here
                ∙ sym (HasPort-effective f.cfg.transport y n there),
          ),
        ))

  not_ours :
      (f : RegistrationFlow) (bs : List Text)
      → All (λ (b : Text). ¬ IsOwn f b) bs
      → All (λ (b : Text). is_ours lower_text f b ≡ false) bs
  not_ours f [] a = tt
  not_ours f (b ∷ bs) a = elim (Bool-cases (is_ours lower_text f b)) [
    | inl yes_ours ↦ absurd (a.0 (is_ours-IsOwn f b yes_ours))
    | inr other ↦ (other, not_ours f bs a.1)
  ]

  chosen_own :
      (f : RegistrationFlow) (others : List Text) (mine : Text) (more : List Text)
      → All (λ (b : Text). ¬ IsOwn f b) others
      → IsOwn f mine
      → chosen lower_text f (others ++ (mine ∷ more)) ≡ some mine
  unfolding chosen
  chosen_own f others mine more a m =
      rw
        (chosen, find_ours-append f others mine more (not_ours f others a) (IsOwn-is_ours f mine m))
        refl

  -- The lifetime that a flow takes from a response is that of its own Contact, the first of the
  -- response that names its binding, whatever the registrar says of other devices in front of it or
  -- behind it: the number of its expires parameter, none if that is malformed, and the fallback of
  -- the response if it has no such parameter. A Contact names the binding if it is the same text, or
  -- if scheme, user, host and port agree, with 5061 for an omitted port over TLS and WSS and 5060
  -- over UDP and TCP.
  pub granted_expires-is_ours :
      (f : RegistrationFlow) (response : SipResponse) (others more : List Text) (mine : Text)
      → bindings (headers_all response.headers contact_name) ≡ others ++ (mine ∷ more)
      → All (λ (b : Text). ¬ IsOwn f b) others
      → IsOwn f mine
      → ((token : Text)
          → expires_token mine ≡ some token
          → granted_expires lower_text f response ≡ parse_decimal token)
        × (expires_token mine ≡ none
            → granted_expires lower_text f response
              ≡ some (expires_of (header response.headers expires_name) f.cfg.expires))
  unfolding granted_expires
  granted_expires-is_ours f response others more mine listed a m =
      let own = chosen_own f others mine more a m in
      (
        (λ token t. rw (granted_expires, listed, own, t) refl),
        (λ t. rw (granted_expires, listed, own, t) refl),
      )
