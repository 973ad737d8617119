-- ===== src/Wardrobe/Peers.antt =====
-- backend/internal/wardrobe/handler.go: which addresses a download connects to.
use mootd.Prelude.{
  ℕ, zero, suc, ◌+◌, ◌++◌, ◌≤◌, false, List, [], ◌∷◌, if◌then◌else◌, ◌≡◌, refl, arith, inl, inr,
  ◌⊎◌, subst, Error, Result, ok, err, Text, All, All-append, Bool-cases, Option-cases, Result-cases,
}
use mootd.Wardrobe.Download.{
  Net, Network, Peer, dial, Reply, redirect, replied, blocked_ip, is_allowed_image_url,
  ssrf_safe_control, hop, fetch, download_image,
}

ok_injective : {A : Type 0} {a b : A} → ◌≡◌ {A = Result A} (ok a) (ok b) → a ≡ b
ok_injective h = cc

Reply-cases :
    (r : Result Reply)
    → ((e : Error) × (r ≡ err e))
      ⊎ (((s : ℕ) × (b : List ℕ) × (c : Text) × (r ≡ ok (replied s b c)))
          ⊎ ((next : Text) × (r ≡ ok (redirect next))))
Reply-cases (err e) = inl (e, refl)
Reply-cases (ok (replied s b c)) = inr (inl (s, b, c, refl))
Reply-cases (ok (redirect next)) = inr (inr (next, refl))

module _ {Ip : Type 0} (net : Net Ip) where
  -- None of package net's tests for an internal address holds.
  pub record IsPublic (ip : Ip) : Type 0 where
    pub not_loopback : net.is_loopback ip ≡ false
    pub not_private : net.is_private ip ≡ false
    pub not_link_local : net.is_link_local_unicast ip ≡ false
    pub not_link_local_multicast : net.is_link_local_multicast ip ≡ false
    pub not_unspecified : net.is_unspecified ip ≡ false
    pub not_multicast : net.is_multicast ip ≡ false

  blocked_ip-IsPublic : (ip : Ip) → blocked_ip net ip ≡ false → IsPublic ip
  unfolding blocked_ip
  blocked_ip-IsPublic ip h = record {
    not_loopback = ground (arith, h);
    not_private = ground (arith, h);
    not_link_local = ground (arith, h);
    not_link_local_multicast = ground (arith, h);
    not_unspecified = ground (arith, h);
    not_multicast = ground (arith, h);
  }

  control-IsPublic :
      (address : Text) (ip : Ip) → ssrf_safe_control net address ≡ ok ip → IsPublic ip
  unfolding ssrf_safe_control
  control-IsPublic address ip = elim (Option-cases (net.split_host_port address)) [
    | inl e ↦ rw (e, ssrf_safe_control) (λ h. cc)
    | inr (host, e) ↦ elim (Option-cases (net.parse_ip host)) [
      | inl f ↦ rw (e, ssrf_safe_control) (rw f (λ h. cc))
      | inr (i, f) ↦ elim (Bool-cases (blocked_ip net i)) [
        | inl b ↦ rw (e, ssrf_safe_control) (rw f (rw b (λ h. cc)))
        | inr b ↦
            rw (e, ssrf_safe_control)
              (rw f (rw b (λ h. subst IsPublic (ok_injective h) (blocked_ip-IsPublic i b))))
      ]
    ]
  ]

  abbrev pub IsPublicPeer : Peer Ip → Type 0
  IsPublicPeer p = IsPublic p.ip

  -- How many of the addresses answered.
  abbrev pub connections : List (Peer Ip) → ℕ
  connections [] = 0
  connections (p ∷ ps) = if p.connected then suc (connections ps) else connections ps

  connections-append :
      (ps qs : List (Peer Ip)) → connections (ps ++ qs) ≡ connections ps + connections qs
  connections-append [] qs = omega arith
  connections-append (p ∷ ps) qs = ground (arith, connections-append ps qs)

  IsClean : ℕ → List (Peer Ip) → Type 0
  IsClean n ps = All IsPublicPeer ps × (connections ps ≤ n)

  module _ {W : Type 0} (network : Network W) where
    dial-IsClean : (addresses : List Text) (w : W) → IsClean 1 (dial net network addresses w).0.1
    unfolding dial IsClean
    dial-IsClean [] w = (tt, omega arith)
    dial-IsClean (a ∷ as') w = elim (Result-cases (ssrf_safe_control net a)) [
      | inr (x, e) ↦ rw (e, dial) (dial-IsClean as' w)
      | inl (ip, e) ↦ elim (Bool-cases (network.connect a w).0) [
        | inl u ↦ rw (e, u, dial) ((control-IsPublic a ip e, tt), omega arith)
        | inr u ↦
            let (clean, few) = dial-IsClean as' (network.connect a w).1 in
            rw (e, u, dial) ((control-IsPublic a ip e, clean), few)
      ]
    ]

    hop-IsClean : (url : Text) (w : W) → IsClean 1 (hop net network url w).0.1
    unfolding hop IsClean
    hop-IsClean url w = elim (Result-cases (network.resolve url w).0) [
      | inr (x, e) ↦ rw (e, hop) (tt, omega arith)
      | inl (as', e) ↦
          let w1 = (network.resolve url w).1 in
          elim (Bool-cases (dial net network as' w1).0.0) [
            | inl f ↦ rw (e, f, hop) (dial-IsClean as' w1)
            | inr f ↦ rw (e, f, hop) (dial-IsClean as' w1)
          ]
    ]

    fetch-IsClean :
        (left : ℕ) (url : Text) (w : W) → IsClean (suc left) (fetch net network left url w).0.1
    unfolding fetch IsClean
    fetch-IsClean zero url w = hop-IsClean url w
    fetch-IsClean (suc left) url w =
        let (clean, few) = hop-IsClean url w in
        let w1 = (hop net network url w).1 in
        let peers = (hop net network url w).0.1 in
        elim (Reply-cases (hop net network url w).0.0) [
          | inl (x, e) ↦ rw (e, fetch) (clean, omega (arith, few))
          | inr (inl (s, b, c, e)) ↦ rw (e, fetch) (clean, omega (arith, few))
          | inr (inr (next, e)) ↦ elim (Bool-cases (is_allowed_image_url net next)) [
            | inr a ↦ rw (e, fetch) (rw a (clean, omega (arith, few)))
            | inl a ↦
                let (clean', few') = fetch-IsClean left next w1 in
                let more = (fetch net network left next w1).0.1 in
                rw (e, fetch)
                  (rw a (
                    All-append IsPublicPeer peers more clean clean',
                    omega (arith, connections-append peers more, few, few'),
                  ))
          ]
        ]

    -- A download of any URL dials no loopback, private, link-local, unspecified or multicast address,
    -- redirects included, whatever names resolve to and whatever the peers answer, and connects at most
    -- five times.
    pub download_image-IsPublic :
        (url : Text) (w : W)
        → All IsPublicPeer (download_image net network url w).0.1
          × (connections (download_image net network url w).0.1 ≤ 5)
    unfolding download_image IsClean
    download_image-IsPublic url w = fetch-IsClean 4 url w
