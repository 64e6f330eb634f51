-- ===== src/Smtp/Session.antt =====
-- `SmtpConfig`, `Session` and `AuthState` of src/smtp.rs.
use smtp_sink.Prelude.{Bool, false, List, [], Option, none}
use smtp_sink.Text.{Text}

-- The acceptor and the forward handle are foreign objects: here, whether there is one.
pub record SmtpConfig : Type 0 where
  pub whitelist : List Text
  pub tls_acceptor : Bool
  pub auth_required : Bool
  pub auth_username : Option Text
  pub auth_password : Option Text
  pub forward_handle : Bool

pub data AuthState : Type 0 where
  idle waiting_for_plain waiting_for_login_username : AuthState
  waiting_for_login_password : Text → AuthState

pub record Session : Type 0 where
  pub mail_from : Option Text
  pub rcpt_to : List Text
  pub authenticated : Bool
  pub auth_required : Bool
  pub tls_active : Bool
  pub auth_state : AuthState

unfoldable pub new : Bool → Bool → Session
new auth_required tls_active = record {
  mail_from = none;
  rcpt_to = [];
  authenticated = false;
  auth_required = auth_required;
  tls_active = tls_active;
  auth_state = idle;
}

unfoldable pub reset : Session → Session
reset s = record s { mail_from = none; rcpt_to = [] }
