-- ===== src/ClientIp/Allowed.antt =====
-- backend/internal/shared/middleware/clientip.go and ip_allowlist.go: who passes the allowlist.
use mathlib.Core.List.{Memᴰ}
use mootd.Prelude.{
  true, false, Option, none, some, List, [], ◌∷◌, ◌≡◌, refl, ◌↔◌, ◌⊎◌, inl, inr, arith, subst, sym,
  Text, Bool-cases,
}
use mootd.ClientIp.Blocks.{Configured, parse_cidrs-Configured, from_configured}
use mootd.ClientIp.{
  Net, Request, admin_ip_allowlist, client_ip, peer_is_trusted, remote_addr_ip, parse_cidrs, admits,
  is_listed,
}

module _ {Ip Block : Type 0} (net : Net Ip Block) where
  open net use {within}

  -- Why a request from an address passes: no entry of the configuration stands for a block, or the
  -- address lies in the block that one of them stands for.
  pub data Admitted (cidrs : List Text) (ip : Option Ip) : Type 0 where
    open_to_all : ((b : Block) → Configured net cidrs b → ⊥) → Admitted cidrs ip
    listed :
        (i : Ip)
        → ip ≡ some i
        → (b : Block) → Configured net cidrs b
        → within b i ≡ true
        → Admitted cidrs ip

  listed_block :
      (nets : List Block) (i : Ip)
      → is_listed net nets i ≡ true
      → (b : Block) × Memᴰ b nets × (within b i ≡ true)
  listed_block [] i h = cc
  listed_block (n ∷ nets) i h = elim (Bool-cases (within n i)) [
    | inl w ↦ (n, Memᴰ.head refl, w)
    | inr w ↦ let (b, m, v) = listed_block nets i (ground (arith, w, h)) in (b, Memᴰ.tail m, v)
  ]

  block_listed :
      (nets : List Block) (b : Block) (i : Ip)
      → Memᴰ b nets
      → within b i ≡ true
      → is_listed net nets i ≡ true
  block_listed [] b i m w = elim m [ ]
  block_listed (n ∷ nets) b i (Memᴰ.head q) w =
      let v : within n i ≡ true = subst (λ x. within x i ≡ true) q w in ground (arith, v)
  block_listed (n ∷ nets) b i (Memᴰ.tail m) w = ground (arith, block_listed nets b i m w)

  admits_cases :
      (nets : List Block) (ip : Option Ip)
      → admits net nets ip ≡ true
      → (nets ≡ []) ⊎ ((i : Ip) × (ip ≡ some i) × (is_listed net nets i ≡ true))
  admits_cases [] ip h = inl refl
  admits_cases (n ∷ nets) none h = cc
  admits_cases (n ∷ nets) (some i) h = inr (i, refl, h)

  no_blocks :
      (nets : List Block) (ip : Option Ip)
      → ((b : Block) → Memᴰ b nets → ⊥)
      → admits net nets ip ≡ true
  no_blocks [] none h = refl
  no_blocks [] (some i) h = refl
  no_blocks (n ∷ nets) ip h = absurd (h n (Memᴰ.head refl))

  listed_admits :
      (nets : List Block) (i : Ip) → is_listed net nets i ≡ true → admits net nets (some i) ≡ true
  listed_admits [] i h = refl
  listed_admits (n ∷ nets) i h = h

  admits→Admitted :
      (cidrs : List Text) (ip : Option Ip)
      → admits net (parse_cidrs net cidrs) ip ≡ true
      → Admitted cidrs ip
  admits→Admitted cidrs ip h = elim (admits_cases (parse_cidrs net cidrs) ip h) [
    | inl e ↦
        open_to_all (λ b c. elim (subst (λ l. Memᴰ b l) e (from_configured net cidrs b c)) [ ])
    | inr (i, e, l) ↦
        let (b, m, w) = listed_block (parse_cidrs net cidrs) i l in
        listed i e b (parse_cidrs-Configured net cidrs b m) w
  ]

  Admitted→admits :
      (cidrs : List Text) (ip : Option Ip)
      → Admitted cidrs ip
      → admits net (parse_cidrs net cidrs) ip ≡ true
  Admitted→admits cidrs ip (open_to_all none_) =
      no_blocks (parse_cidrs net cidrs) ip (λ b m. none_ b (parse_cidrs-Configured net cidrs b m))
  Admitted→admits cidrs ip (listed i e b c w) =
      subst (λ x. admits net (parse_cidrs net cidrs) x ≡ true) (sym e)
        (listed_admits (parse_cidrs net cidrs) i
          (block_listed (parse_cidrs net cidrs) b i (from_configured net cidrs b c) w))

  client_ip_untrusted :
      (trusted : List Block) (r : Request)
      → peer_is_trusted net trusted (remote_addr_ip net r) ≡ false
      → client_ip net trusted r ≡ remote_addr_ip net r
  unfolding client_ip
  client_ip_untrusted trusted r h = rw h refl

  -- For a request whose immediate peer is not a trusted proxy, the allowlist passes it exactly when no
  -- entry of the configuration stands for a block or the peer's own address lies in the block of one,
  -- which for a bare address is its /32 or, in IPv6, its /128 block, whatever X-Forwarded-For says.
  pub admin_ip_allowlist_unspoofed :
      (cidrs : List Text) (trusted : List Block) (r : Request)
      → peer_is_trusted net trusted (remote_addr_ip net r) ≡ false
      → (admin_ip_allowlist net cidrs trusted r ≡ true) ↔ Admitted cidrs (remote_addr_ip net r)
  unfolding admin_ip_allowlist
  admin_ip_allowlist_unspoofed cidrs trusted r h =
      rw (client_ip_untrusted trusted r h)
        (admits→Admitted cidrs (remote_addr_ip net r), Admitted→admits cidrs (remote_addr_ip net r))
