-- ===== src/Tests/Login.antt =====
-- The theorems on the authentication and on the emails that are read, at concrete inputs.
use smtp_sink.Prelude.{◌≡◌, ◌↔◌, refl, arith, inl, some, [], ◌∷◌, true}
use smtp_sink.Text.{codes}
use smtp_sink.Exec.{ok}
use smtp_sink.Utf8.{as_bytes}
use smtp_sink.Smtp.Session.{SmtpConfig, waiting_for_login_password}
use smtp_sink.Smtp.Message.{External, parse_email}
use smtp_sink.Smtp.Message.Parsed.{IsWhole, parse_email-IsWhole}
use smtp_sink.Smtp.Auth.{verify_plain_auth, read_login_username, read_login_password}
use smtp_sink.Smtp.Auth.Plain.{IsName, plain_message, verify_plain_auth_iff}
use smtp_sink.Smtp.Auth.Login.{read_login_password_iff, read_login_username_remembers}
use smtp_sink.Tests.Setup.{ext, ready, stamp_of, closed_config, conn}

abbrev login_config : SmtpConfig
login_config = record closed_config {
  auth_username = some (codes "u");
  auth_password = some (codes "p");
}

-- A decoder that gives the message of AUTH PLAIN, and one that gives a password.
abbrev plain_ext : External
plain_ext = record ext { base64_decode = λ t. some (plain_message [] (codes "u") (codes "p")) }

abbrev login_ext : External
login_ext = record ext { base64_decode = λ t. some (as_bytes (codes "p")) }

u-IsName : IsName (codes "u")
u-IsName = record { scalars = (inl (omega arith), tt); no_zero = omega arith }

p-IsName : IsName (codes "p")
p-IsName = record { scalars = (inl (omega arith), tt); no_zero = omega arith }

verify_plain_auth_iff_example :
    ((verify_plain_auth plain_ext login_config (codes "AHUAcA==") (conn [])).1.session.authenticated
      ≡ true)
    ↔ ((some (codes "u") ≡ login_config.auth_username)
        × (some (codes "p") ≡ login_config.auth_password))
verify_plain_auth_iff_example =
    verify_plain_auth_iff plain_ext login_config (codes "AHUAcA==") [] (codes "u") (codes "p")
      (conn []) refl refl tt u-IsName p-IsName

read_login_password_iff_example :
    ((read_login_password login_ext login_config
        (codes "u")
        (codes "cA==")
        (conn [])).1.session.authenticated
      ≡ true)
    ↔ ((some (codes "u") ≡ login_config.auth_username)
        × (some (codes "p") ≡ login_config.auth_password))
read_login_password_iff_example =
    read_login_password_iff login_ext login_config (codes "u") (codes "cA==") (codes "p") (conn [])
      refl refl (inl (omega arith), tt)

read_login_username_remembers_example : read_login_username login_ext (codes "cA==") (conn []) ≡ (
  ok tt,
  record (conn []) {
    session = record (conn []).session { auth_state = waiting_for_login_password (codes "p") };
    room = 7;
    output = "334 UGFzc3dvcmQ6\r\n" ∷ [];
  },
)
read_login_username_remembers_example =
    read_login_username_remembers login_ext 7 (codes "cA==") (codes "p") (conn []) refl refl
      (inl (omega arith), tt)

parse_email-IsWhole_example : IsWhole (codes "hi") (parse_email ext (stamp_of 0) (codes "hi") ready)
parse_email-IsWhole_example = parse_email-IsWhole ext (stamp_of 0) (codes "hi") ready refl
