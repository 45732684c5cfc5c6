-- ===== src/Child/Loop/Output.antt =====
-- `child_process_output` of server/child.c.
use jail.Base.{
  ℕ, zero, suc, ◌+◌, ◌-◌, ◌<◌, ◌≡◌, refl, true, List, ◌++◌, arith, length, drop, ℤ, pos, negsuc,
  minus_one, is_neg, is_zero, ◌==ℤ◌, ◌||◌, if◌then◌else◌,
}
use jail.Posix.{World, done, ◌>>=◌, after, answer, Call, Reply, read, write, close}
use jail.Posix.Rules.{ReadFits}
use jail.Message.{std_out, std_err, code, header}
use jail.Buffer.Framing.{length_field, type_field}
use jail.Child.{Child}
use jail.Child.Loop.{
  Stream, out, err, fd_of, close_stream, type_of, output_space, relay, process_output,
}

-- The read from a stream.
abbrev pub output_read : Stream → Child → Call
output_read stream s = read (fd_of stream s) output_space

pub relay_end :
    (c : ℤ) (stream : Stream) (size : ℤ) (bytes : List ℕ) (s : Child) (w : World)
    → (is_neg size || is_zero size) ≡ true
    → relay c stream size bytes s w
      ≡ done (pos 0) (close_stream stream s) (after w (close (fd_of stream s)))
unfolding relay ◌>>=◌
relay_end c stream (negsuc n) bytes s w h = refl
relay_end c stream (pos zero) bytes s w h = refl
relay_end c stream (pos (suc n)) bytes s w h = absurd (ground arith)

relay_bytes :
    (c : ℤ) (stream : Stream) (n : ℕ) (bytes : List ℕ) (s : Child) (w : World)
    → length bytes ≡ suc n
    → n < 65000
    → (m : List ℕ) × (relay c stream (pos (suc n)) bytes s w
        ≡ done
            (if (answer w (write c m)).ret ==ℤ pos (length m) then pos 0 else minus_one)
            s
            (after w (write c m)))
      × (length_field m ≡ length m)
      × (type_field m ≡ code (type_of stream))
      × (drop 4 m ≡ bytes)
unfolding relay header code ◌>>=◌
relay_bytes c out n bytes s w e h =
    (header std_out (5 + suc n - 1) ++ bytes, ground arith, omega arith, refl, refl)
relay_bytes c err n bytes s w e h =
    (header std_err (5 + suc n - 1) ++ bytes, ground arith, omega arith, refl, refl)

-- If reads bring as many bytes as they return and at most as many as asked for: at the end of a
-- stream or on an error of `read`, `child_process_output` closes the descriptor,
-- marks the stream as closed and succeeds. Otherwise it writes one message to the client, whose
-- length field is its length, whose type is the stream's and whose body is what was read, and
-- succeeds exactly if all of it was written.
pub process_output_lem :
    (c : ℤ) (stream : Stream) (s : Child) (w : World)
    → ReadFits w.kernel
    → let r = answer w (output_read stream s) in
      let w1 = after w (output_read stream s) in
      ((is_neg r.ret || is_zero r.ret) ≡ true
        → process_output c stream s w
          ≡ done (pos 0) (close_stream stream s) (after w1 (close (fd_of stream s))))
      × ((n : ℕ)
          → r.ret ≡ pos (suc n)
          → (m : List ℕ) × (process_output c stream s w
              ≡ done
                  (if (answer w1 (write c m)).ret ==ℤ pos (length m) then pos 0 else minus_one)
                  s
                  (after w1 (write c m)))
            × (length_field m ≡ length m)
            × (type_field m ≡ code (type_of stream))
            × (drop 4 m ≡ r.bytes))
unfolding process_output ◌>>=◌
process_output_lem c stream s w reads = (
  λ h. relay_end c stream r.ret r.bytes s w1 h,
  λ n e.
      let (len, small) = reads.fits w.now (fd_of stream s) output_space (suc n) e in
      rw e (relay_bytes c stream n r.bytes s w1 len (omega arith)),
)
  where
    r : Reply
    r = answer w (output_read stream s)

    w1 : World
    w1 = after w (output_read stream s)
