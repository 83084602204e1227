-- ===== src/Security/Sessions/Creation.antt =====
-- That the limit of sessions holds.
use masterfadebackend.Prelude.{
  ℕ, zero, suc, ◌≤◌, ◌≡◌, inl, inr, refl, List, [], ◌∷◌, map, Option, none, some, Bool, true, false,
  ◌&&◌, arith, leb, length, filter, Bool-cases,
}
use masterfadebackend.Security.Sessions.{
  Session, PolicyRow, Policy, NewSession, created, allow, confirm_replace, is_action, live_of,
  coalesce, smaller, least_limit, resolve_policy, expire_one, replace_one, new_row,
  create_committed, create_active_session, limit_reached, create_error,
}

smaller-pos : (n : ℕ) (o : Option ℕ) → 1 ≤ coalesce o 5 → 1 ≤ coalesce (smaller n o) 5
smaller-pos zero o h = h
smaller-pos (suc n) none h = omega arith
smaller-pos (suc n) (some m) h = omega (arith, h)

least_limit-pos : (rows : List PolicyRow) → 1 ≤ coalesce (least_limit rows) 5
unfolding least_limit
least_limit-pos [] = omega arith
least_limit-pos (r ∷ rs) = smaller-pos r.max_active_sessions (least_limit rs) (least_limit-pos rs)

resolve_policy-pos : (rows : List PolicyRow) → 1 ≤ (resolve_policy rows).max_sessions
unfolding resolve_policy
resolve_policy-pos rows = least_limit-pos rows

replace_one-dead : (now user : ℕ) (s : Session) → live_of now user (replace_one now user s) ≡ false
unfolding replace_one
replace_one-dead now user s = ground arith

none_live :
    (now user : ℕ) (table : List Session)
    → length (filter (live_of now user) (map (replace_one now user) table)) ≡ 0
none_live now user [] = refl
none_live now user (s ∷ ss) = rw (replace_one-dead now user s) (none_live now user ss)

insert-length :
    (p : Session → Bool) (s : Session) (ss : List Session)
    → length (filter p (s ∷ ss)) ≤ suc (length (filter p ss))
insert-length p s ss = ground arith

not_created : (b : Bool) → limit_reached b ≡ created → ⊥
not_created b e = cc

not_error : create_error ≡ created → ⊥
not_error e = cc

create_committed-limit :
    (now : ℕ) (policy : Policy) (recent : Bool) (n : NewSession) (table : List Session)
    → 1 ≤ policy.max_sessions
    → is_action policy.action allow ≡ false
    → (create_committed now policy recent n table).answer ≡ created
    → length (filter (live_of now n.user) (create_committed now policy recent n table).sessions)
      ≤ policy.max_sessions
unfolding create_committed
create_committed-limit now policy recent n table pos strict ok =
    let swept = map (expire_one now n.user) table in
    let live = live_of now n.user in
    elim (Bool-cases (leb policy.max_sessions (length (filter live swept)))) [
      | inl full ↦
          elim (Bool-cases (is_action policy.action confirm_replace && n.replace_active_session)) [
            | inl again ↦
                rw (full, strict, again)
                  (omega (
                    arith,
                    insert-length live (new_row now n) (map (replace_one now n.user) swept),
                    none_live now n.user swept,
                    pos,
                  ))
            | inr refused ↦ absurd (
                not_created (is_action policy.action confirm_replace)
                  (rw (full, strict, refused) at ok))
          ]
      | inr room ↦ rw room (ground (arith, insert-length live (new_row now n) swept))
    ]

-- Where a session is created under a policy that limits them, the user has no more live sessions
-- than the policy allows, the new one among them.
pub create_active_session-limit :
    (now : ℕ) (rows : List PolicyRow) (recent commits : Bool) (n : NewSession)
    (table : List Session)
    → is_action (resolve_policy rows).action allow ≡ false
    → (create_active_session now rows recent commits n table).answer ≡ created
    → length (
        filter
          (live_of now n.user)
          (create_active_session now rows recent commits n table).sessions)
      ≤ (resolve_policy rows).max_sessions
unfolding create_active_session
create_active_session-limit now rows recent true n table strict ok =
    create_committed-limit now (resolve_policy rows) recent n table (resolve_policy-pos rows) strict
      ok
create_active_session-limit now rows recent false n table strict ok = absurd (not_error ok)
