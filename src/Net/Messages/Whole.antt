-- ===== src/Net/Messages/Whole.antt =====
-- process_nl_msgs of c/net.c with its handlers: a whole buffer.
use tracep.Base.{
  All, Bool, Bool-cases, List, Option-cases, [], arith, inl, inr, length, length-take, none, not,
  refl, some, take, ℕ, ◌&&◌, ◌++◌, ◌+◌, ◌-◌, ◌/◌, ◌^◌, ◌||◌, ◌∷◌, ◌≤◌,
}
use tracep.Memory.{Bytes, Returns, Within-bind}
use tracep.Net.Attrs.{ConnTuple, parse_tcp_state, parse_tuple}
use tracep.Net.Attrs.Tuple.{TupleWithin, parse_tcp_state_within, parse_tuple-TupleWithin}
use tracep.Net.Chains.{bucket, db_delete, db_get, db_put, db_write}
use tracep.Net.Chains.Maps.{rechain-Distinct}
use tracep.Net.Chains.Refine.{
  Distinct, KeepsKey, delete_in-Distinct, put_in-Distinct, write_in-Distinct,
}
use tracep.Net.Events.{
  ConnEntry, NetState, Owner, World, begun, conn_keyed, find_pid_and_dir, handle_destroy,
  handle_new, handle_update, in_state, is_left_out, is_skipped, is_tcp, owner_of, show_event,
  state_of,
}
use tracep.Net.Events.Timeline.{show_event_conns}
use tracep.Net.Line.{
  EventKind, NetOptions, closed, end_text, fresh_conn, tcp_state_name, tuple_key, updated,
}
use tracep.Net.Messages.{is_unwanted, on_conn, on_event, process_nl_msgs}
use tracep.Net.Messages.Walk.{Small, lengths, walk-Within}
use tracep.Text.{decimal}

-- No two entries of the table of connections in one bucket have the same key.
abbrev pub IsConsistent : NetState → Type 0
IsConsistent s = (i : ℕ) → Distinct conn_keyed (s.conns i)

module _ (inet_ntop : Bytes → Bytes) (time_text : ℕ → Bytes) (watch : List ℕ) (o : NetOptions)
    (w : World) where
  show_event-IsConsistent :
      (t : ConnTuple) (owner : Owner) (event : EventKind) (extra : Bytes) (s : NetState)
      → IsConsistent s
      → IsConsistent (show_event inet_ntop time_text watch o w t owner event extra s)
  show_event-IsConsistent t owner event extra s h =
      rw (show_event_conns inet_ntop time_text watch o w t owner event extra s) h

  module _ (key : Bytes) (fits : length key ≤ 159) (t : ConnTuple) (d : Bytes) (at plen : ℕ)
      (inside : at + plen ≤ length d) (s : NetState) (h : IsConsistent s) where
    put_IsConsistent :
        (f : ConnEntry → ConnEntry)
        → KeepsKey conn_keyed f
        → (i : ℕ) → Distinct conn_keyed (db_put conn_keyed s.conns key f i)
    unfolding db_put
    put_IsConsistent f keeps =
        rechain-Distinct conn_keyed s.conns (bucket conn_keyed key) _ h
          (put_in-Distinct conn_keyed key fits f keeps _ (h (bucket conn_keyed key)))

    write_IsConsistent :
        (f : ConnEntry → ConnEntry)
        → KeepsKey conn_keyed f
        → (i : ℕ) → Distinct conn_keyed (db_write conn_keyed s.conns key f i)
    unfolding db_write
    write_IsConsistent f keeps =
        rechain-Distinct conn_keyed s.conns (bucket conn_keyed key) _ h
          (write_in-Distinct conn_keyed key f keeps _ (h (bucket conn_keyed key)))

    delete_IsConsistent : (i : ℕ) → Distinct conn_keyed (db_delete conn_keyed s.conns key i)
    unfolding db_delete
    delete_IsConsistent =
        rechain-Distinct conn_keyed s.conns (bucket conn_keyed key) _ h
          (delete_in-Distinct conn_keyed key _ (h (bucket conn_keyed key)))

    state_of_within : Returns (λ _. Unit {0}) (state_of d at plen t)
    unfolding state_of
    state_of_within = elim (Bool-cases (is_tcp t)) [
      | inl tcp ↦ rw (tcp, state_of) (parse_tcp_state_within d at plen inside)
      | inr other ↦ rw (other, state_of) tt
    ]

    handle_new-IsConsistent :
        Returns IsConsistent (handle_new inet_ntop time_text watch o w key t d at plen s)
    unfolding handle_new
    handle_new-IsConsistent =
        let owner = find_pid_and_dir inet_ntop time_text watch o w t in
        elim (Bool-cases (is_skipped watch w owner.pid || is_left_out o owner.dir)) [
          | inl skip ↦ rw (skip, handle_new) h
          | inr keep ↦
              rw (keep, handle_new)
                (Within-bind ⊥ (λ _. Unit {0}) IsConsistent (state_of d at plen t) _ state_of_within
                  (λ state _.
                    show_event-IsConsistent t owner fresh_conn []
                      (record s { conns = db_put conn_keyed s.conns key (begun w t owner state) })
                      (put_IsConsistent (begun w t owner state) (λ e. refl))))
        ]

    handle_update-IsConsistent :
        Returns IsConsistent (handle_update inet_ntop time_text watch o w key t d at plen s)
    unfolding handle_update
    handle_update-IsConsistent =
        let owner = owner_of (db_get conn_keyed s.conns key) in
        elim (Bool-cases (is_skipped watch w owner.pid || is_left_out o owner.dir)) [
          | inl skip ↦ rw (skip, handle_update) h
          | inr keep ↦ elim (Bool-cases (is_tcp t)) [
            | inl tcp ↦
                rw (keep, handle_update, tcp)
                  (Within-bind ⊥ (λ _. Unit {0}) IsConsistent (parse_tcp_state d at plen) _
                    (parse_tcp_state_within d at plen inside)
                    (λ state _.
                      show_event-IsConsistent t owner updated (take 15 (tcp_state_name state))
                        (record s { conns = db_write conn_keyed s.conns key (in_state state) })
                        (write_IsConsistent (in_state state) (λ e. refl))))
            | inr other ↦
                rw (keep, handle_update, other) (show_event-IsConsistent t owner updated [] s h)
          ]
        ]

    handle_destroy-IsConsistent :
        IsConsistent (handle_destroy inet_ntop time_text watch o w key t s)
    unfolding handle_destroy
    handle_destroy-IsConsistent = elim (Option-cases (db_get conn_keyed s.conns key)) [
      | inl absent ↦ rw (absent, handle_destroy) delete_IsConsistent
      | inr (e, present) ↦ elim (Bool-cases (is_skipped watch w e.pid)) [
        | inl skip ↦ rw (present, handle_destroy, skip) delete_IsConsistent
        | inr keep ↦
            rw (present, handle_destroy, keep)
              (show_event-IsConsistent t (owner_of (some e)) closed
                (take 31 (time_text (w.now - e.start_at)))
                (record s { conns = db_delete conn_keyed s.conns key }) delete_IsConsistent)
      ]
    ]

  module _ (d : Bytes) (at plen : ℕ) (inside : at + plen ≤ length d) (s : NetState)
      (h : IsConsistent s) where
    tuple_key_within : (t : ConnTuple) → length (tuple_key inet_ntop t) ≤ 159
    unfolding tuple_key
    tuple_key_within t = omega (
      arith,
      length-take 159 (
          end_text inet_ntop t.src_ip t.src_port
          ++ (b'|' ∷ end_text inet_ntop t.dst_ip t.dst_port ++ (b'|' ∷ decimal t.proto))),
    )

    on_conn-IsConsistent :
        (is_new created : Bool) (t : ConnTuple)
        → Returns IsConsistent (on_conn inet_ntop time_text watch o w is_new created t d at plen s)
    unfolding on_conn
    on_conn-IsConsistent is_new created t =
        let key = tuple_key inet_ntop t in
        let fits = tuple_key_within t in
        elim (Bool-cases (is_new && created)) [
          | inl e ↦ rw (e, on_conn) (handle_new-IsConsistent key fits t d at plen inside s h)
          | inr e ↦ elim (Bool-cases (is_new && o.show_update)) [
            | inl e' ↦
                rw (e, on_conn, e') (handle_update-IsConsistent key fits t d at plen inside s h)
            | inr e' ↦ elim (Bool-cases (not is_new && o.show_close)) [
              | inl e'' ↦
                  rw (e, on_conn, e', e'')
                    (handle_destroy-IsConsistent key fits t d at plen inside s h)
              | inr e'' ↦ elim (Bool-cases (not is_new)) [
                | inl old ↦
                    rw (e, on_conn, e', e'', old)
                      (delete_IsConsistent key fits t d at plen inside s h)
                | inr new ↦ rw (e, on_conn, e', e'', new) h
              ]
            ]
          ]
        ]

    on_event-IsConsistent :
        (is_new created : Bool)
        → Returns IsConsistent (on_event inet_ntop time_text watch o w is_new created d at plen s)
    unfolding on_event
    on_event-IsConsistent is_new created =
        Within-bind ⊥ TupleWithin IsConsistent (parse_tuple d at plen) _
          (parse_tuple-TupleWithin d at plen inside)
          (elim [
            | none ↦ λ _. h
            | some t ↦ λ _. elim (Bool-cases (is_unwanted inet_ntop time_text watch o w t)) [
              | inl skip ↦ rw skip h
              | inr keep ↦ rw keep (on_conn-IsConsistent is_new created t)
            ]
          ])

  -- On a buffer of up to 2 ^ 20 bytes, where each length that the walk reads is below 2 ^ 31,
  -- process_nl_msgs ends within a round for each 16 bytes and one more and reads nothing outside
  -- the buffer, in the attributes of the messages neither; and if no chain of the table had two
  -- entries with one key before, none has after.
  pub process_nl_msgs-IsConsistent :
      (d : Bytes) (s : NetState)
      → length d ≤ 2 ^ 20
      → All Small (lengths (length d / 16 + 1) d 0 (length d))
      → IsConsistent s
      → Returns IsConsistent (process_nl_msgs inet_ntop time_text watch o w (length d / 16 + 1) d s)
  unfolding process_nl_msgs
  process_nl_msgs-IsConsistent d s size small h =
      walk-Within (on_event inet_ntop time_text watch o w) ⊥ IsConsistent d
        (λ is_new created at plen s' inside h'.
          on_event-IsConsistent d at plen inside s' h' is_new created)
        (length d / 16 + 1) 0 (length d) s (omega arith) size (omega arith) small h
