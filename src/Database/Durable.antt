-- ===== src/Database/Durable.antt =====
-- What the calls of a handler leave in the database, by the transactions of MySQL: statements of a
-- transaction are in force once it is committed and dropped by a rollback or with their connection;
-- switching `autocommit` on commits what is pending; outside a transaction, and on a new connection,
-- each statement is in force at once.
use tinychat_server.Base.{
  ◌≡◌, Bool, true, false, ◌&&◌, not, List, [], ◌∷◌, ◌++◌, append-nil, arith, if◌then◌else◌,
}
use tinychat_server.Database.{
  Call, connect, reconnect, commit, rollback, free_conn, next_id, set_auto_commit, update, query,
  write_to, write_to_room, Mysql, destroy,
}
use tinychat_server.Database.Statements.{Statement}

-- `auto` is the connection's `autocommit`, and `pending` the open transaction.
abbrev pub in_force : Bool → List Statement → List Call → List Statement
in_force auto pending [] = []
in_force auto pending (connect ∷ calls) = in_force true [] calls
in_force auto pending (reconnect ∷ calls) = in_force true [] calls
in_force auto pending (commit ∷ calls) = pending ++ in_force auto [] calls
in_force auto pending (rollback ∷ calls) = in_force auto [] calls
in_force auto pending (free_conn ∷ calls) = in_force auto pending calls
in_force auto pending (next_id ∷ calls) = in_force auto pending calls
in_force auto pending (set_auto_commit true ∷ calls) = pending ++ in_force true [] calls
in_force auto pending (set_auto_commit false ∷ calls) = in_force false pending calls
in_force true pending (update st ∷ calls) = st ∷ in_force true pending calls
in_force false pending (update st ∷ calls) = in_force false (pending ++ st ∷ []) calls
in_force auto pending (query st ∷ calls) = in_force auto pending calls
in_force auto pending (write_to user msg ∷ calls) = in_force auto pending calls
in_force auto pending (write_to_room room msg ∷ calls) = in_force auto pending calls

abbrev pub durable : List Call → List Statement
durable calls = in_force true [] calls

-- The destructor of the connection's owner: it commits what is pending, where the connection is
-- valid and not in `autocommit`.
pub in_force-destroy :
    (s : Mysql) (auto : Bool) (pending : List Statement)
    → in_force auto pending (destroy s)
      ≡ (if s.is_valid_at_end && s.resets_at_end && not s.auto_commit_at_end then pending else [])
unfolding destroy
in_force-destroy s auto pending = ground (arith, append-nil pending)
