-- ===== src/Client/Run/Reuse.antt =====
-- wruster/src/http/client/mod.rs: a connection goes back to the pool and is used again.
use wruster.Base.{
  ℕ, ◌≡◌, ◌≢◌, true, false, some, arith, equal_refl, ◌==◌, length, Option-cases, inl, inr,
}
use wruster.Client.ConnectionPool
use wruster.Client.ConnectionPool.Lookup.{lookup-put}
use wruster.Client.ConnectionPool.{Pool, PoolResource, insert, put, lookup, max_resources}
use wruster.Client.Run.{
  Network, ClientResponse, resource_or_connect, connection, consume, put_back, drop_response,
}
use wruster.Http.Body.{Mime}
use wruster.Http.Error.{ok}
use wruster.Http.Request.{Request, is_connection_persistent}

module _ (mime : Mime) (N : Network) where
  open mime use {Media}
  open N use {Conn}

  drop_response-puts :
      (now : ℕ) (r : ClientResponse mime N) (pool pool' : Pool Conn)
      → length pool ≢ max_resources
      → N.try_clone r.conn ≡ ok tt
      → drop_response mime N now r pool ≡ some pool'
      → put pool r.addr (record { resource = r.conn; last_used = now }) ≡ pool'
  unfolding drop_response put_back insert
  drop_response-puts now r pool pool' room cloned dropped =
      elim (Option-cases (consume mime N r.response.body)) [
        | inl panics ↦ cc (rw (panics, drop_response) at dropped)
        | inr (_, consumed) ↦
            let some_room : (length pool == max_resources) ≡ false = ground (arith, room) in
            cc (rw (consumed, cloned, some_room, drop_response) at dropped)
      ]

  -- When a response is dropped while the pool has room and the connection can be cloned, the next
  -- persistent request to its address is sent on its connection, whatever headers the response had
  -- and whether the rest of its body could be read.
  pub drop_response-reuses :
      (now : ℕ) (r : ClientResponse mime N) (pool pool' : Pool Conn) (next : Request Media)
      → length pool ≢ max_resources
      → N.try_clone r.conn ≡ ok tt
      → drop_response mime N now r pool ≡ some pool'
      → is_connection_persistent next ≡ true
      → connection mime N pool' r.addr next ≡ (ok r.conn, ConnectionPool.remove pool' r.addr)
  unfolding connection ConnectionPool.get resource_or_connect
  drop_response-reuses now r pool pool' next room cloned dropped persistent =
      let puts = drop_response-puts now r pool pool' room cloned dropped in
      let entry : PoolResource Conn = record { resource = r.conn; last_used = now } in
      let found : lookup pool' r.addr ≡ some entry =
        rw⁻¹ puts (rw (lookup-put pool r.addr r.addr entry, equal_refl r.addr)) in
      rw (connection, persistent, found)
