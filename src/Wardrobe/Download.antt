-- ===== src/Wardrobe/Download.antt =====
-- backend/internal/wardrobe/handler.go: the download of an image from a URL that a client or the detection
-- service gives, with the checks that keep it from internal addresses. Package net, package url and the
-- network are parameters.
use mootd.Prelude.{
  ℕ, zero, suc, Bool, true, false, not, ◌&&◌, ◌||◌, Option, none, some, List, [], ◌∷◌, ◌++◌, ◌==◌,
  if◌then◌else◌, new, wrap, Result, ok, err, Text, text_eq, codes, map, take,
}
use mootd.Wardrobe.{Image}

-- net.IP's tests, net.ParseIP, net.SplitHostPort's host, and url.Parse's scheme and host name.
pub record Net (Ip : Type 0) : Type 0 where
  pub is_loopback : Ip → Bool
  pub is_private : Ip → Bool
  pub is_link_local_unicast : Ip → Bool
  pub is_link_local_multicast : Ip → Bool
  pub is_unspecified : Ip → Bool
  pub is_multicast : Ip → Bool
  pub parse_ip : Text → Option Ip
  pub split_host_port : Text → Option Text
  pub parse_url : Text → Option (Text × Text)
  pub lower : ℕ → ℕ

-- What a peer answers: a redirect, or the status, the body and the Content-Type.
pub data Reply : Type 0 where
  redirect : Text → Reply
  replied : ℕ → List ℕ → Text → Reply

-- `resolve` gives the addresses that are dialled for a URL, one after the other, `connect` says whether
-- an address answers, and `request` is the exchange with the peer once it is connected.
pub record Network (W : Type 0) : Type 0 where
  pub resolve : Text → W → Result (List Text) × W
  pub connect : Text → W → Bool × W
  pub request : Text → W → Result Reply × W

-- An address that was dialled, and whether it answered.
pub record Peer (Ip : Type 0) : Type 0 where
  pub ip : Ip
  pub connected : Bool

module _ {Ip : Type 0} (net : Net Ip) where
  open net use {
    is_loopback, is_private, is_link_local_unicast, is_link_local_multicast, is_unspecified,
    is_multicast, parse_ip, split_host_port, parse_url, lower,
  }

  unfoldable pub blocked_ip : Ip → Bool
  blocked_ip ip =
      is_loopback ip
      || (is_private ip
          || (is_link_local_unicast ip
              || (is_link_local_multicast ip || (is_unspecified ip || is_multicast ip))))

  abbrev pub is_internal_name : Text → Bool
  is_internal_name host =
      text_eq (map lower host) (codes "localhost")
      || text_eq (map lower host) (codes "metadata.google.internal")

  abbrev pub is_blocked_literal : Option Ip → Bool
  is_blocked_literal none = false
  is_blocked_literal (some ip) = blocked_ip ip

  unfoldable pub is_allowed_image_url : Text → Bool
  unfolding blocked_ip
  is_allowed_image_url raw_url = elim (parse_url raw_url) [
    | none ↦ false
    | some (scheme, host) ↦
        (text_eq scheme (codes "http") || text_eq scheme (codes "https"))
        && (not (text_eq host [])
            && (not (is_blocked_literal (parse_ip host)) && not (is_internal_name host)))
  ]

  -- The address that may be connected to.
  unfoldable pub ssrf_safe_control : Text → Result Ip
  unfolding blocked_ip
  ssrf_safe_control address = elim (split_host_port address) [
    | none ↦ err (new "ssrf guard: invalid dial address")
    | some host ↦ elim (parse_ip host) [
      | none ↦ err (new "ssrf guard: non-IP dial address")
      | some ip ↦ if blocked_ip ip then err (new "ssrf guard: refusing to connect") else ok ip
    ]
  ]

  module _ {W : Type 0} (network : Network W) where
    open network use {resolve, connect, request}

    -- The dialer, with its Control hook before each address.
    unfoldable pub dial : List Text → W → (Bool × List (Peer Ip)) × W
    unfolding ssrf_safe_control
    dial [] w = ((false, []), w)
    dial (address ∷ addresses) w =
        let blocked = dial addresses w in
        elim (ssrf_safe_control address) [
          | err e ↦ blocked
          | ok ip ↦
              let (up, w1) = connect address w in
              let ((found, more), w2) = dial addresses w1 in
              if up
              then ((true, record { ip = ip; connected = true } ∷ []), w1)
              else ((found, record { ip = ip; connected = false } ∷ more), w2)
        ]

    -- One request of the client, with the peers that it dialled.
    unfoldable pub hop : Text → W → (Result Reply × List (Peer Ip)) × W
    unfolding dial
    hop url w =
        let (addresses, w1) = resolve url w in
        elim addresses [
          | err e ↦ ((err e, []), w1)
          | ok as' ↦
              let ((found, peers), w2) = dial as' w1 in
              let (reply, w3) = request url w2 in
              if found then ((reply, peers), w3) else ((err (new "dial failed"), peers), w2)
        ]

    abbrev refuse_redirect : Result Reply → Result Reply
    refuse_redirect (err e) = err e
    refuse_redirect (ok (redirect next)) = err (new "ssrf guard: stopped after 5 redirects")
    refuse_redirect (ok (replied status body content_type)) = ok (replied status body content_type)

    abbrev join :
        List (Peer Ip) → (Result Reply × List (Peer Ip)) × W → (Result Reply × List (Peer Ip)) × W
    join peers ((r, more), w) = ((r, peers ++ more), w)

    -- The client's Do, with the redirects that CheckRedirect still allows.
    unfoldable pub fetch : ℕ → Text → W → (Result Reply × List (Peer Ip)) × W
    unfolding hop is_allowed_image_url
    fetch zero url w = let ((r, peers), w1) = hop url w in ((refuse_redirect r, peers), w1)
    fetch (suc left) url w =
        let ((r, peers), w1) = hop url w in
        elim r [
          | err e ↦ ((err e, peers), w1)
          | ok (replied status body content_type) ↦
              ((ok (replied status body content_type), peers), w1)
          | ok (redirect next) ↦
              let rest = fetch left next w1 in
              if is_allowed_image_url next
              then join peers rest
              else ((err (new "ssrf guard: redirect to disallowed URL"), peers), w1)
        ]

    abbrev pub max_image_size : ℕ
    max_image_size = 10_485_760

    abbrev pub image_of : Result Reply → Result Image
    image_of (err e) = err (wrap "fetch image" e)
    image_of (ok (redirect next)) = err (new "image fetch returned a redirect")
    image_of (ok (replied status body content_type)) =
        if status == 200
        then ok (record {
          content = take max_image_size body;
          content_type = if text_eq content_type [] then codes "image/jpeg" else content_type;
        })
        else err (new "image fetch returned another status")

    -- CheckRedirect stops when five requests were made, so that four redirects are followed.
    unfoldable pub download_image : Text → W → (Result Image × List (Peer Ip)) × W
    unfolding fetch
    download_image url w = let ((r, peers), w1) = fetch 4 url w in ((image_of r, peers), w1)
