-- ===== src/Security/Sessions/Use/Examples.antt =====
-- A user with one session of an hour, a policy of one session, and the limits of idle sessions.
use masterfadebackend.Prelude.{
  ◌≡◌, ◌≢◌, ◌≤◌, ◌<◌, refl, List, [], ◌∷◌, filter, length, none, some, true, false, arith,
}
use masterfadebackend.Security.Sessions.{
  activa, Session, PolicyRow, allow, block, confirm_replace, NewSession, new_row, live_of,
  resolve_policy, create_active_session, create_committed, Created, created,
}
use masterfadebackend.Security.Sessions.Creation.{create_active_session-limit}
use masterfadebackend.Security.Sessions.Use.{
  SessionConfig, valid, find_session, has_token, validate_active_session, close_active_session,
}
use masterfadebackend.Security.Sessions.Use.Closing.{HasClosed, close_active_session-ends}
use masterfadebackend.Security.Sessions.Use.Keeping.{validate_active_session-keeps}

abbrev config : SessionConfig
config = record { idle_timeout_ms = 1200000; touch_throttle_ms = 60000 }

abbrev first : NewSession
first = record {
  user = 7;
  sid = 1;
  jti_hash = 11;
  exp_unix = 3600;
  motivo = none;
  replace_active_session = false;
}

abbrev second : NewSession
second = record {
  user = 7;
  sid = 2;
  jti_hash = 12;
  exp_unix = 3700;
  motivo = none;
  replace_active_session = true;
}

abbrev policies : List PolicyRow
policies = record { max_active_sessions = 1; collision_action = confirm_replace } ∷ []

abbrev one_session : List Session
one_session = new_row 0 first ∷ []

-- The second session replaces the first, and is the only one.
create_active_session-limit_example :
    length (
      filter
        (live_of 1000 7)
        (create_active_session 1000 policies false true second one_session).sessions)
    ≤ (resolve_policy policies).max_sessions
unfolding resolve_policy masterfadebackend.Security.Sessions.expire_one new_row
create_active_session-limit_example =
    create_active_session-limit 1000 policies false true second one_session
      (unfold resolve_policy in refl) (unfold create_active_session in refl)

close_active_session-ends_example :
    HasClosed (close_active_session 5000 true 7 1 none none one_session).answer
    × ((validate_active_session config 6000 true true 7 1 11
          (close_active_session 5000 true 7 1 none none one_session).sessions).answer
        ≢ valid)
close_active_session-ends_example =
    close_active_session-ends config 5000 6000 7 1 11 none none true true one_session (omega arith)

found_expires :
    (s : Session) → find_session (has_token 7 1 11) one_session ≡ some s → 1000000 < s.expira_at
unfolding find_session new_row
found_expires s e = ground arith

-- Used after ten seconds, within the throttle, and again almost seventeen minutes later.
validate_active_session-keeps_example :
    (validate_active_session config 1000000 true true 7 1 11
      (validate_active_session config 10000 true true 7 1 11 one_session).sessions).answer
    ≡ valid
unfolding new_row
validate_active_session-keeps_example =
    validate_active_session-keeps config 10000 1000000 7 1 11 true one_session (omega arith)
      (omega arith) found_expires (unfold validate_active_session in refl)
