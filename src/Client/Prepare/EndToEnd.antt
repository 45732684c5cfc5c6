-- ===== src/Client/Prepare/EndToEnd.antt =====
-- A request on its way from `client_execute_pipe` or `client_execute_socket` of client/jail.c to
-- `child_parse` of server/child.c.
use jail.Base.{
  suc, ◌/◌, ℕ, ◌+◌, ◌%◌, ◌≤◌, ◌≡◌, refl, ap, ◌∙◌, Bool, true, false, not, if◌then◌else◌, ◌==ℤ◌,
  Option, some, ◌++◌, arith, length, drop, All, ℤ, pos, minus_one,
}
use jail.Posix.{World, answer, done, ◌>>=◌, write, after}
use jail.Array.{Bytes, Array}
use jail.Array.Format.{IsText, encode}
use jail.Array.Write.{get_size_lem}
use jail.Message.{fork_socket, u16, MessageType, code, header, offsetof_body}
use jail.Buffer.Framing.{length_field, type_field}
use jail.Child.{Child}
use jail.Child.Execute.{parse_strings}
use jail.Client.{Client}
use jail.Client.Prepare.{prepare, send, execute_plain, request_size}
use jail.Client.Prepare.RoundTrip.{GivesMemory, request_round_trip}
use jail.Client.Prepare.Request.{permitted_only, prepare_lem}

four : (wire : Bytes) → suc (suc (suc (suc (length wire)))) ≡ 4 + length wire
four wire = omega arith

status_lem : (b : Bool) → (if not b then minus_one else pos 0) ≡ (if b then pos 0 else minus_one)
status_lem true = refl
status_lem false = refl

type_lem : (type : MessageType) → u16 (code type % 256) (code type / 256 % 256) ≡ code type
unfolding code
type_lem fork_socket = refl
type_lem _ = refl

send_lem :
    (type : MessageType) (sock : ℤ) (wire : Bytes) (c : Client) (w : World)
    → offsetof_body + length wire ≤ request_size
    → let m = header type (4 + length wire) ++ wire in
      (send sock (4 + length wire) m c w
        ≡ done
            (if (answer w (write sock m)).ret ==ℤ pos (length m) then pos 0 else minus_one)
            c
            (after w (write sock m)))
      × (length_field m ≡ length m)
      × (type_field m ≡ code type)
unfolding send header ◌>>=◌
send_lem type sock wire c w h = (
  rw (small, four wire) (ap (λ r. done r c (after w (write sock m))) (status_lem _)),
  omega arith,
  type_lem type,
)
  where
    m : Bytes
    m = header type (4 + length wire) ++ wire

    small : (4 + length wire) % 65536 ≡ 4 + length wire
    small = omega arith

abbrev with_length : Bytes → ℕ → Option (ℕ × Bytes)
with_length wire n = some (n, wire)

execute_plain_lem :
    (type : MessageType) (sock : ℤ) (c : Client) (w w' : World) (n : ℕ) (wire : Bytes)
    → prepare request_size offsetof_body c w ≡ done (some (n, wire)) c w'
    → execute_plain type sock c w ≡ send sock n (header type n ++ wire) c w'
unfolding execute_plain ◌>>=◌
execute_plain_lem type sock c w w' n wire e = rw e refl

-- If memory is given, and no argument and no entry of the environment that may pass is empty or
-- holds a zero byte, and these fit into the buffer, then `client_execute_pipe` and
-- `client_execute_socket` write one message, whose fields hold its length and type, and succeed
-- exactly if all of it was written. From this message `child_parse` reads the client's arguments
-- and the entries that may pass.
pub request_arrives :
    (type : MessageType) (sock : ℤ) (c : Client) (w : World) (s : Child) (v : World)
    → GivesMemory w.kernel
    → GivesMemory v.kernel
    → All IsText c.argv
    → All IsText (permitted_only c.environ)
    → offsetof_body + length (encode c.argv) + length (encode (permitted_only c.environ))
      ≤ request_size
    → (m : Bytes) × (w' : World) × (argv env : Array Bytes) × (v' : World) × (execute_plain type
          sock c w
        ≡ done
            (if (answer w' (write sock m)).ret ==ℤ pos (length m) then pos 0 else minus_one)
            c
            (after w' (write sock m)))
      × (length_field m ≡ length m)
      × (type_field m ≡ code type)
      × (parse_strings (drop offsetof_body m) (length m) offsetof_body s v
          ≡ done (some (argv, env)) s v')
      × (argv.array ≡ c.argv)
      × (env.array ≡ permitted_only c.environ)
unfolding header
request_arrives type sock c w s v mw mv ta te fits =
    let (a, e, w', p, ca, ce) = prepare_lem c w request_size offsetof_body mw in
    let (n, wire, argv, env, v', q, len, short, r, ra, re) =
      request_round_trip a e request_size offsetof_body s v mv (rw ca ta) (rw ce te) (omega arith)
        (rw (get_size_lem a, get_size_lem e, ca, ce) fits) in
    let (sent, field, kind) = send_lem type sock wire c w' (omega arith) in
    let built = q ∙ ap (with_length wire) len in
    let prepared = p ∙ ap (λ o. done o c w') built in
    (
      header type (4 + length wire) ++ wire,
      w',
      argv,
      env,
      v',
      execute_plain_lem type sock c w w' (4 + length wire) wire prepared ∙ sent,
      field,
      kind,
      rw (four wire, ← len) r,
      ra ∙ ca,
      re ∙ ce,
    )
