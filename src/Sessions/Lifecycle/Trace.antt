-- ===== src/Sessions/Lifecycle/Trace.antt =====
-- Sequences of use cases on one database.
use workflow_forge.Sessions.Lifecycle.{
  Draw, Ports, start_user_session, refresh_session, logout_session, logout_all_sessions,
}
use workflow_forge.Base.{Result, List, ℕ, ◌∷◌, Option, []}
use workflow_forge.Sessions.Store.{Store}
use workflow_forge.Transaction.{run}
use workflow_forge.Sessions.Store.Changes.{Extends, Extends-IsPreorder}
use workflow_forge.Transaction.Growth.{run-Grows}
use workflow_forge.Text.{Text}
use workflow_forge.Sessions.Lifecycle.Forward.{
  Grows-start_user_session, Grows-refresh_session, Grows-logout_session, Grows-logout_all_sessions,
}

-- A call with what it draws from the world; `login` has the outcome of the password check.
pub data Call : Type 0 where
  login : Draw → Result ℕ → Call
  refresh : Draw → Text → Call
  logout : Draw → (user_id session_id : ℕ) → Call
  logout_all : Draw → (user_id : ℕ) → Option ℕ → Call

unfoldable pub perform : Ports → Call → Store → Store
perform ports (login draw authenticated) s = (run (start_user_session ports draw authenticated) s).1
perform ports (refresh draw token) s = (run (refresh_session ports draw token) s).1
perform ports (logout draw u i) s = (run (logout_session ports draw u i) s).1
perform ports (logout_all draw u i) s = (run (logout_all_sessions ports draw u i) s).1

unfoldable pub perform_all : Ports → List Call → Store → Store
perform_all ports [] s = s
perform_all ports (c ∷ cs) s = perform_all ports cs (perform ports c s)

perform-Extends : (ports : Ports) (c : Call) (s : Store) → Extends s (perform ports c s)
unfolding perform
perform-Extends ports (login draw a) s =
    run-Grows Extends-IsPreorder _ s (Grows-start_user_session ports draw a)
perform-Extends ports (refresh draw t) s =
    run-Grows Extends-IsPreorder _ s (Grows-refresh_session ports draw t)
perform-Extends ports (logout draw u i) s =
    run-Grows Extends-IsPreorder _ s (Grows-logout_session ports draw u i)
perform-Extends ports (logout_all draw u i) s =
    run-Grows Extends-IsPreorder _ s (Grows-logout_all_sessions ports draw u i)

-- Whatever calls follow each other, and whether each returns or raises, a session that was revoked
-- is still revoked, and a refresh token that was used, replaced or revoked is still so.
pub perform_all-Extends :
    (ports : Ports) (calls : List Call) (s : Store) → Extends s (perform_all ports calls s)
unfolding perform_all
perform_all-Extends ports [] s = Extends-IsPreorder.reflexive s
perform_all-Extends ports (c ∷ cs) s =
    Extends-IsPreorder.transitive (perform-Extends ports c s)
      (perform_all-Extends ports cs (perform ports c s))
