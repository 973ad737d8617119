-- ===== src/ClientIp/Tests.antt =====
-- backend/internal/shared/middleware/clientip.go and ip_allowlist.go: tests, on addresses that are
-- written as text and blocks of one address.
use mootd.Prelude.{
  Bool, true, false, Option, none, some, List, [], ◌∷◌, ◌≡◌, refl, ◌↔◌, Text, text_eq, codes,
  trim_space, ◌==◌, if◌then◌else◌,
}
use mootd.ClientIp.{
  Net, Request, admin_ip_allowlist, peer_is_trusted, remote_addr_ip, index_byte, is_empty,
  set_trusted_proxies,
}
use mootd.ClientIp.Allowed.{Admitted, admin_ip_allowlist_unspoofed}

abbrev until : Text → Option Text
until s = elim (index_byte b'/' s) [ none ↦ none | some i ↦ some (mootd.Prelude.take i s) ]

abbrev net : Net Text Text
net = record {
  parse_ip = λ s. if is_empty s then none else some s;
  is_v4 = λ ip. true;
  ip_string = λ ip. ip;
  parse_cidr = until;
  within = text_eq;
  split_host_port = λ s. some s;
}

abbrev request : Request
request = record { remote_addr = codes "6.6.6.6"; x_forwarded_for = codes "10.0.0.1, 9.9.9.9" }

abbrev office : List Text
office = codes "10.0.0.1" ∷ []

abbrev proxy : List Text
proxy = codes "6.6.6.6" ∷ []

untrusted : peer_is_trusted net [] (remote_addr_ip net request) ≡ false
unfolding peer_is_trusted remote_addr_ip
untrusted = refl

through_proxy : admin_ip_allowlist net office proxy request ≡ true
unfolding admin_ip_allowlist
through_proxy = refl

direct : admin_ip_allowlist net office [] request ≡ false
unfolding admin_ip_allowlist
direct = refl

no_proxies : set_trusted_proxies net [] ≡ codes "127.0.0.0" ∷ codes "::1" ∷ []
unfolding set_trusted_proxies
no_proxies = refl

admin_ip_allowlist_unspoofed_example :
    (admin_ip_allowlist net office [] request ≡ true)
    ↔ Admitted net office (remote_addr_ip net request)
admin_ip_allowlist_unspoofed_example = admin_ip_allowlist_unspoofed net office [] request untrusted
