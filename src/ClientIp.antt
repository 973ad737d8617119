-- ===== src/ClientIp.antt =====
-- backend/internal/shared/middleware/clientip.go and ip_allowlist.go: the source address of a request,
-- and the allowlist of the admin routes. Go's package net is a parameter.
pub mod Blocks
pub mod Allowed
pub mod Tests
use mootd.Prelude.{
  ℕ, suc, ◌+◌, Bool, true, false, Option, none, some, List, [], ◌∷◌, ◌++◌, ltb, ◌==◌, any, take,
  if◌then◌else◌, Text, text_eq, trim_space, contains, codes,
}

-- An address, a block of addresses and what the code uses of package net; an error is `none`.
pub record Net (Ip Block : Type 0) : Type 0 where
  pub parse_ip : Text → Option Ip
  pub is_v4 : Ip → Bool
  pub ip_string : Ip → Text
  pub parse_cidr : Text → Option Block
  pub within : Block → Ip → Bool
  pub split_host_port : Text → Option Text

-- What the middleware reads of a request; a missing header is "".
pub record Request : Type 0 where
  pub remote_addr : Text
  pub x_forwarded_for : Text

-- strings.IndexByte; -1 is `none`.
abbrev pub index_byte : ℕ → Text → Option ℕ
index_byte c [] = none
index_byte c (d ∷ s) =
    let rest = index_byte c s in
    if d == c then some 0 else elim rest [ none ↦ none | some i ↦ some (suc i) ]

abbrev pub is_empty : {A : Type 0} → List A → Bool
is_empty [] = true
is_empty (x ∷ xs) = false

-- The left-most entry of the header.
abbrev pub first_entry : Text → Text
first_entry xff = elim (index_byte b',' xff) [
  | none ↦ xff
  | some i ↦ if ltb 0 i then take i xff else xff
]

module _ {Ip Block : Type 0} (net : Net Ip Block) where
  open net use {parse_ip, is_v4, ip_string, parse_cidr, within, split_host_port}

  -- A bare address becomes a block of one address.
  unfoldable pub with_suffix : Text → Option Text
  unfolding trim_space
  with_suffix s = if contains s (b'/' ∷ []) then some s else elim (parse_ip s) [
    | none ↦ none
    | some ip ↦
        if is_v4 ip then some (ip_string ip ++ codes "/32") else some (ip_string ip ++ codes "/128")
  ]

  abbrev pub keep_block : Option Block → List Block → List Block
  keep_block none rest = rest
  keep_block (some block) rest = block ∷ rest

  abbrev pub parse_entry : Text → Option Block
  parse_entry s = elim (with_suffix s) [ none ↦ none | some cidr ↦ parse_cidr cidr ]

  unfoldable pub parse_cidrs : List Text → List Block
  unfolding with_suffix trim_space
  parse_cidrs [] = []
  parse_cidrs (raw ∷ cidrs) =
      let rest = parse_cidrs cidrs in
      let s = trim_space raw in if text_eq s [] then rest else keep_block (parse_entry s) rest

  unfoldable pub default_trusted_proxies : List Block
  default_trusted_proxies =
      keep_block (parse_cidr (codes "127.0.0.0/8")) (keep_block (parse_cidr (codes "::1/128")) [])

  unfoldable pub set_trusted_proxies : List Text → List Block
  unfolding parse_cidrs default_trusted_proxies
  set_trusted_proxies cidrs =
      let nets = parse_cidrs cidrs in if is_empty nets then default_trusted_proxies else nets

  abbrev pub is_listed : List Block → Ip → Bool
  is_listed nets ip = any (λ n. within n ip) nets

  unfoldable pub peer_is_trusted : List Block → Option Ip → Bool
  peer_is_trusted trusted none = false
  peer_is_trusted trusted (some ip) = is_listed trusted ip

  unfoldable pub remote_addr_ip : Request → Option Ip
  remote_addr_ip r =
      let whole = parse_ip r.remote_addr in
      elim (split_host_port r.remote_addr) [
        | none ↦ whole
        | some host ↦ elim (parse_ip host) [ none ↦ whole | some ip ↦ some ip ]
      ]

  abbrev pub forwarded : Request → Option Ip
  forwarded r =
      if text_eq r.x_forwarded_for []
      then none
      else parse_ip (trim_space (first_entry r.x_forwarded_for))

  unfoldable pub client_ip : List Block → Request → Option Ip
  unfolding remote_addr_ip peer_is_trusted trim_space
  client_ip trusted r =
      let peer = remote_addr_ip r in
      if peer_is_trusted trusted peer
      then elim (forwarded r) [ none ↦ peer | some ip ↦ some ip ]
      else peer

  abbrev pub admits : List Block → Option Ip → Bool
  admits nets none = is_empty nets
  admits nets (some ip) = if is_empty nets then true else is_listed nets ip

  -- Whether the middleware passes the request on; otherwise it answers 403.
  unfoldable pub admin_ip_allowlist : List Text → List Block → Request → Bool
  unfolding parse_cidrs client_ip
  admin_ip_allowlist cidrs trusted r = admits (parse_cidrs cidrs) (client_ip trusted r)
