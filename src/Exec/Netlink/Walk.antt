-- ===== src/Exec/Netlink/Walk.antt =====
-- dispatchNlMsg of c/exec.c: what it reads, and its rounds.
use tracep.Base.{
  Bool, Bool-cases, arith, false, get_elem?_within, if◌then◌else◌, inl, inr, length, ltb, ltb→ge,
  not, suc, true, zero, ℕ, ◌&&◌, ◌*◌, ◌+◌, ◌-◌, ◌<◌, ◌==◌, ◌^◌, ◌||◌, ◌≤◌,
}
use tracep.Exec.Netlink.{dispatch, handle_message, nlmsg_align}
use tracep.Memory.{
  Bytes, Outcome, Returns, Within, Within-bind, Within-of_Returns, le32, le64, ok, ◌>>=◌,
}

pub le32_within : (d : Bytes) (i : ℕ) → i + 4 ≤ length d → Returns (λ v. v < 2 ^ 32) (le32 d i)
unfolding le32
le32_within d i h = ground (
  arith,
  get_elem?_within d i,
  get_elem?_within d (i + 1),
  get_elem?_within d (i + 2),
  get_elem?_within d (i + 3),
)

pub le64_within : (d : Bytes) (i : ℕ) → i + 8 ≤ length d → Returns (λ v. v < 2 ^ 64) (le64 d i)
unfolding le64
le64_within d i h =
    Within-bind ⊥ (λ v. v < 2 ^ 32) (λ v. v < 2 ^ 64) (le32 d i) _ (le32_within d i (omega arith))
      (λ lo hlo.
        Within-bind ⊥ (λ v. v < 2 ^ 32) (λ v. v < 2 ^ 64) (le32 d (i + 4)) _
          (le32_within d (i + 4) (omega arith)) (λ hi hhi. omega arith))

pub le32_read :
    (E : Type 0) (d : Bytes) (i : ℕ) → i + 4 ≤ length d → Within E (λ v. v < 2 ^ 32) (le32 d i)
le32_read E d i h = Within-of_Returns E (λ v. v < 2 ^ 32) (le32 d i) (le32_within d i h)

le64_read :
    (E : Type 0) (d : Bytes) (i : ℕ) → i + 8 ≤ length d → Within E (λ v. v < 2 ^ 64) (le64 d i)
le64_read E d i h = Within-of_Returns E (λ v. v < 2 ^ 64) (le64 d i) (le64_within d i h)

module _ {S : Type 0} (on_exec on_exit : Bytes → ℕ → ℕ → ℕ → S → Outcome S) (E : Type 0)
    (Inv : S → Type 0) where
  -- The handler reads only the data of its event, and keeps the invariant.
  abbrev pub Handles : Bytes → (Bytes → ℕ → ℕ → ℕ → S → Outcome S) → Type 0
  Handles d h =
      (at len ts : ℕ) (s : S) → at + len ≤ length d → Inv s → Within E Inv (h d at len ts s)

  module _ (d : Bytes) (execs : Handles d on_exec) (exits : Handles d on_exit) (at len : ℕ) (s : S)
      (fits : at + len ≤ length d) (inv : Inv s) where
    abbrev handled : ℕ → ℕ → Outcome S
    handled what ts =
        if what == 0x00000002
        then on_exec d (at + 36) (len - 36) ts s
        else if what == 0x80000000
        then on_exit d (at + 36) (len - 36) ts s
        else ok s

    handled-Within : (what ts : ℕ) → 36 ≤ len → Within E Inv (handled what ts)
    handled-Within what ts room = elim (Bool-cases (what == 0x00000002)) [
      | inl e ↦ rw e (execs (at + 36) (len - 36) ts s (omega arith) inv)
      | inr ne ↦ elim (Bool-cases (what == 0x80000000)) [
        | inl e ↦ rw (ne, e) (exits (at + 36) (len - 36) ts s (omega arith) inv)
        | inr ne' ↦ rw (ne, ne') inv
      ]
    ]

    abbrev event : Outcome S
    event = do what ← le32 d (at + 20); ts ← le64 d (at + 28); handled what ts

    event-Within : 36 ≤ len → Within E Inv event
    event-Within room =
        Within-bind E (λ v. v < 2 ^ 32) Inv (le32 d (at + 20)) _
          (le32_read E d (at + 20) (omega arith))
          (λ what _.
            Within-bind E (λ v. v < 2 ^ 64) Inv (le64 d (at + 28)) _
              (le64_read E d (at + 28) (omega arith)) (λ ts _. handled-Within what ts room))

    connected-Within : (ours : Bool) → 36 ≤ len → Within E Inv (if not ours then ok s else event)
    connected-Within true room = event-Within room
    connected-Within false room = inv

    handle_message-Within : Within E Inv (handle_message on_exec on_exit d at len s)
    unfolding handle_message
    handle_message-Within = elim (Bool-cases (ltb len 36)) [
      | inl cut ↦ rw (cut, handle_message) inv
      | inr long ↦
          let room : 36 ≤ len = ltb→ge len 36 long in
          rw (long, handle_message)
            (Within-bind E (λ v. v < 2 ^ 32) Inv (le32 d at) _ (le32_read E d at (omega arith))
              (λ idx _.
                Within-bind E (λ v. v < 2 ^ 32) Inv (le32 d (at + 4)) _
                  (le32_read E d (at + 4) (omega arith))
                  (λ val _. connected-Within (idx == 1 && val == 1) room)))
    ]

  module _ (d : Bytes) (total : ℕ) (inside : total ≤ length d) (execs : Handles d on_exec)
      (exits : Handles d on_exit) where
    -- Where both handlers keep an invariant on every event that lies inside the buffer,
    -- dispatchNlMsg keeps it from an offset up to the end of the data: it reads nothing outside the
    -- buffer, gives the handlers only events inside it, and is done in fewer rounds than one for
    -- each 16 bytes and one more.
    pub dispatch-Within :
        (rounds off : ℕ) (s : S)
        → off ≤ total
        → total - off < 16 * rounds
        → Inv s
        → Within E Inv (dispatch on_exec on_exit rounds d total off s)
    unfolding dispatch
    dispatch-Within zero off s le lt inv = absurd (omega arith)
    dispatch-Within (suc rounds) off s le lt inv = elim (Bool-cases (ltb (total - off) 16)) [
      | inl over ↦ rw (over, dispatch) inv
      | inr more ↦
          let room : 16 ≤ total - off = ltb→ge (total - off) 16 more in
          rw (more, dispatch)
            (Within-bind E (λ v. v < 2 ^ 32) Inv (le32 d off) _ (le32_read E d off (omega arith))
              (λ len hlen. elim (Bool-cases (ltb len 16 || ltb (total - off) len)) [
                | inl cut ↦ rw cut inv
                | inr good ↦
                    let low : 16 ≤ len = ground (arith, good) in
                    let high : len ≤ total - off = ground (arith, good) in
                    rw good (
                      Within-bind E Inv Inv
                        (handle_message on_exec on_exit d (off + 16) (len - 16) s) _
                        (handle_message-Within d execs exits (off + 16) (len - 16) s (omega arith)
                          inv)
                        (λ s' inv'.
                          elim (Bool-cases
                            (nlmsg_align len == 0 || ltb (total - off) (nlmsg_align len))) [
                              | inl last ↦ rw last inv'
                              | inr next ↦
                                  let moves : 16 ≤ nlmsg_align len = ground (arith, next) in
                                  let stays : nlmsg_align len ≤ total - off =
                                    ground (arith, next) in
                                  rw next (
                                    dispatch-Within rounds (off + nlmsg_align len) s' (omega arith)
                                      (omega arith) inv')
                            ]))
              ]))
    ]
