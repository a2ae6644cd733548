-- ===== src/Tests/Relay.antt =====
-- Addresses and registrations at concrete inputs.
use printdrop.Prelude.{
  ℕ, ◌≤◌, ◌≡◌, ◌↔◌, refl, true, none, some, List, [], ◌∷◌, ◌++◌, length, drop, replicate, arith,
}
use printdrop.Bytes.{write_out}
use printdrop.Bytes.Text.{codes, strlen, text_of}
use printdrop.Hex.{all_lower_hex}
use printdrop.RelayEndpoint.{
  RelayEndpointResult, normalize_base, receiver_path, sender_path, build_receiver_wss_url,
  build_sender_wss_url,
}
use printdrop.RelayEndpoint.Build.{IsBuilt, build_wss_url_ok}
use printdrop.RelayRegistration.{RegistrationResult, build_endpoint, build_body}
use printdrop.RelayRegistration.Body.{body_text, build_body_iff}
use printdrop.RelayRegistration.Build.{
  IsRegistered, build_endpoint_ok, build_endpoint-normalize_base,
}

abbrev base : List ℕ
base = codes "https://r.io//" ++ 0 ∷ []

abbrev id : List ℕ
id = codes "0123456789abcdef0123456789abcdef" ++ 0 ∷ []

abbrev blank : List ℕ
blank = replicate 80 0

build_wss_url_ok_example :
    ((build_receiver_wss_url (some base) (some id) (some blank) 80).0 ≡ RelayEndpointResult.ok
      → IsBuilt base receiver_path id blank
          (build_receiver_wss_url (some base) (some id) (some blank) 80).1)
    × ((build_sender_wss_url (some base) (some id) (some blank) 80).0 ≡ RelayEndpointResult.ok
        → IsBuilt base sender_path id blank
            (build_sender_wss_url (some base) (some id) (some blank) 80).1)
build_wss_url_ok_example = build_wss_url_ok base id blank 80 (omega arith)

build_endpoint_ok_example : IsRegistered base blank (build_endpoint (some base) (some blank) 80).1
unfolding build_endpoint printdrop.RelayRegistration.endpoint_after_scheme strlen
    printdrop.Bytes.Text.mem_equal printdrop.Bytes.Text.memchr
    printdrop.RelayRegistration.scheme_length_of printdrop.RelayRegistration.base_is_invalid
    printdrop.RelayRegistration.trim_slashes
build_endpoint_ok_example = build_endpoint_ok base blank 80 (omega arith) refl

build_endpoint-normalize_base_example :
    ((build_endpoint (some base) (some blank) 80).0 ≡ RegistrationResult.invalid_base_url)
    ↔ ((normalize_base (some base)).0 ≡ RelayEndpointResult.invalid_base_url)
build_endpoint-normalize_base_example = build_endpoint-normalize_base base blank 80

build_body_iff_example :
    (((build_body (some id) (some blank) 80 none).0 ≡ RegistrationResult.ok)
      ↔ ((strlen id ≡ 32) × (all_lower_hex (text_of id) ≡ true) × (50 ≤ 80)))
    × ((build_body (some id) (some blank) 80 none).0 ≡ RegistrationResult.ok
        → ((build_body (some id) (some blank) 80 none).1
            ≡ some ((body_text (text_of id) ++ 0 ∷ []) ++ drop 50 blank))
          × ((build_body (some id) (some blank) 80 none).2 ≡ write_out none 49)
          × (length (body_text (text_of id)) ≡ 49))
build_body_iff_example = build_body_iff id blank 80 none (omega arith)

-- The addresses themselves.
receiver_url :
    (build_receiver_wss_url (some base) (some id) (some blank) 80).1
    ≡ some (codes "wss://r.io/v1/receiver/0123456789abcdef0123456789abcdef" ++ replicate 25 0)
unfolding build_receiver_wss_url printdrop.RelayEndpoint.build_ws_path
    printdrop.RelayEndpoint.session_id_is_valid all_lower_hex printdrop.Hex.is_lower_hex_digit
    printdrop.RelayEndpoint.after_normalize normalize_base printdrop.RelayEndpoint.after_scheme
    printdrop.RelayEndpoint.put_endpoint printdrop.Bytes.store printdrop.BaseUrl.scheme_of strlen
    printdrop.Bytes.Text.mem_equal printdrop.BaseUrl.is_refused printdrop.Bytes.Text.memchr
    printdrop.BaseUrl.strip_slashes
receiver_url = refl
