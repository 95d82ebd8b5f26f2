-- ===== src/Net/Events/Timeline.antt =====
-- A connection of c/net.c from its first event to its end: handle_new, and then handle_destroy.
use tracep.Base.{
  Bool-cases, List, [], ap, false, inl, inr, length, none, refl, some, sym, take, ℕ, ◌-◌, ◌||◌, ◌∙◌,
  ◌≡◌, ◌≤◌,
}
use tracep.Memory.{Bytes, Outcome, fault, ok, spin, ◌>>=◌}
use tracep.Net.Attrs.{ConnTuple}
use tracep.Net.Chains.{db_delete, db_get, db_put}
use tracep.Net.Chains.Maps.{db_get-db_put_self}
use tracep.Net.Events.{
  ConnEntry, NetState, Owner, World, begun, conn_keyed, find_pid_and_dir, handle_destroy,
  handle_new, is_left_out, is_skipped, owner_of, show_event, state_of,
}
use tracep.Net.Line.{EventKind, NetOptions, closed, fresh_conn}
use tracep.PidTable.Probe.{entry}

module _ (inet_ntop : Bytes → Bytes) (time_text : ℕ → Bytes) (watch : List ℕ) (o : NetOptions)
    (w : World) where
  pub show_event_conns :
      (t : ConnTuple) (owner : Owner) (event : EventKind) (extra : Bytes) (s : NetState)
      → (show_event inet_ntop time_text watch o w t owner event extra s).conns ≡ s.conns
  unfolding show_event
  show_event_conns t owner event extra s = elim (Bool-cases o.show_reverse) [
    | inl on ↦ rw (on, show_event) refl
    | inr off ↦ rw (off, show_event) refl
  ]

  module _ (key : Bytes) (fits : length key ≤ 159) (t : ConnTuple) (d : Bytes) (at plen : ℕ)
      (s s' : NetState) where
    abbrev found : Owner
    found = find_pid_and_dir inet_ntop time_text watch o w t

    -- The table has the connection behind a first event that is not left out, with its owner and time.
    handle_new-entry :
        (is_skipped watch w found.pid || is_left_out o found.dir) ≡ false
        → handle_new inet_ntop time_text watch o w key t d at plen s ≡ ok s'
        → (e : ConnEntry) × (db_get conn_keyed s'.conns key ≡ some e)
          × (owner_of (some e) ≡ found)
          × (e.start_at ≡ w.now)
    unfolding handle_new owner_of
    handle_new-entry kept ran = recorded (state_of d at plen t) (rw (kept, handle_new) at ran)
      where
        recorded :
            (m : Outcome ℕ)
            → (m >>= λ state. ok (
                show_event inet_ntop time_text watch o w t found fresh_conn []
                  (record s { conns = db_put conn_keyed s.conns key (begun w t found state) })))
              ≡ ok s'
            → (e : ConnEntry) × (db_get conn_keyed s'.conns key ≡ some e)
              × (owner_of (some e) ≡ found)
              × (e.start_at ≡ w.now)
        recorded fault e = cc
        recorded spin e = cc
        recorded (ok state) e =
            let put = record s { conns = db_put conn_keyed s.conns key (begun w t found state) } in
            let same : show_event inet_ntop time_text watch o w t found fresh_conn [] put ≡ s' =
              cc in
            (
              begun w t found state (elim (db_get conn_keyed s.conns key) [
                | none ↦ conn_keyed.fresh key
                | some old ↦ old
              ]),
              ap (λ c. db_get conn_keyed c key)
                    (ap (λ r. r.conns) (sym same) ∙ show_event_conns t found fresh_conn [] put)
                  ∙ db_get-db_put_self conn_keyed s.conns key (begun w t found state) fits
                      (λ x. refl),
              refl,
              refl,
            )

module _ (inet_ntop : Bytes → Bytes) (time_text : ℕ → Bytes) (watch : List ℕ) (o : NetOptions)
    (w w' : World) (key : Bytes) (fits : length key ≤ 159) (t : ConnTuple) (d : Bytes) (at plen : ℕ)
    (s s1 s2 : NetState) where
  -- If handle_new recorded a connection, and the entry of its key is the same when the connection
  -- ends, and its process is watched then if any is, then handle_destroy takes the entry out and
  -- prints the line CLOSED with the owner and the direction that handle_new found, and with the
  -- time that has passed in between.
  pub handle_destroy-handle_new :
      let owner = find_pid_and_dir inet_ntop time_text watch o w t in
      (is_skipped watch w owner.pid || is_left_out o owner.dir) ≡ false
      → handle_new inet_ntop time_text watch o w key t d at plen s ≡ ok s1
      → db_get conn_keyed s2.conns key ≡ db_get conn_keyed s1.conns key
      → is_skipped watch w' owner.pid ≡ false
      → handle_destroy inet_ntop time_text watch o w' key t s2
        ≡ show_event inet_ntop time_text watch o w' t owner closed
            (take 31 (time_text (w'.now - w.now)))
            (record s2 { conns = db_delete conn_keyed s2.conns key })
  unfolding handle_destroy owner_of
  handle_destroy-handle_new kept ran stays seen =
      let (e, entry, owner, start) =
        handle_new-entry inet_ntop time_text watch o w key fits t d at plen s s1 kept ran in
      let seen' : is_skipped watch w' e.pid ≡ false =
        ap (λ x. is_skipped watch w' x.pid) owner ∙ seen in
      rw (stays ∙ entry, handle_destroy, seen', owner, start) refl
