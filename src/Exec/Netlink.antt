-- ===== src/Exec/Netlink.antt =====
-- dispatchNlMsg of c/exec.c: the walk over the netlink messages of a buffer, each with a connector
-- header and a process event. The handlers are given the buffer, the offset and the length of the
-- event's data, and its time stamp. The loop has no bound of its own, so it gets rounds.
pub mod Walk
use tracep.Base.{
  false, if◌then◌else◌, ltb, not, suc, true, zero, ℕ, ◌%◌, ◌&&◌, ◌*◌, ◌+◌, ◌-◌, ◌/◌, ◌==◌, ◌^◌,
  ◌||◌,
}
use tracep.Memory.{Bytes, Outcome, le32, le64, ok, spin, ◌>>=◌}

-- `NLMSG_ALIGN(nlmsg_len)`, in 32 bits
abbrev pub nlmsg_align : ℕ → ℕ
nlmsg_align len = (len + 3) % 2 ^ 32 / 4 * 4

module _ {S : Type 0} (on_exec on_exit : Bytes → ℕ → ℕ → ℕ → S → Outcome S) where
  -- the body of the message at offset `at`, of `len` bytes
  pub handle_message : Bytes → ℕ → ℕ → S → Outcome S
  unfolding le32 le64
  handle_message d at len s = if ltb len 36 then ok s else do
    idx ← le32 d at
    val ← le32 d (at + 4)
    if not (idx == 1 && val == 1) then ok s else (do
      what ← le32 d (at + 20)
      ts ← le64 d (at + 28)
      if what == 0x00000002
          then on_exec d (at + 36) (len - 36) ts s
          else if what == 0x80000000
          then on_exit d (at + 36) (len - 36) ts s
          else ok s)

  unfoldable pub dispatch : ℕ → Bytes → ℕ → ℕ → S → Outcome S
  unfolding le32 handle_message
  dispatch zero d total off s = spin
  dispatch (suc rounds) d total off s = elim (ltb (total - off) 16) [
    | true ↦ ok s
    | false ↦ le32 d off >>= λ len. elim (ltb len 16 || ltb (total - off) len) [
      | true ↦ ok s
      | false ↦ handle_message d (off + 16) (len - 16) s >>= λ s'.
          elim (nlmsg_align len == 0 || ltb (total - off) (nlmsg_align len)) [
            | true ↦ ok s'
            | false ↦ dispatch rounds d total (off + nlmsg_align len) s'
          ]
    ]
  ]
