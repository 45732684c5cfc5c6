-- ===== src/Client/Remote/Safety.antt =====
-- `client_process_remote` of client/jail.c: its assertions, its fuel and its buffer.
use jail.Base.{◌<◌, ◌≡◌, Option, some, arith, ℤ, pos}
use jail.Posix.{World, ◌>>=◌}
use jail.Posix.Rules.{Ends, ReadFits}
use jail.Message.{Message, message_at, MessageType, std_out, of_code}
use jail.Buffer.{Buffer}
use jail.Buffer.Contents.{IsValid}
use jail.Buffer.Drain.Safety.{Progresses, Processed, process_remote_lem}
use jail.Client.{Client}
use jail.Client.Remote.{dispatch_case, dispatch, process_remote}

dispatch_case_lem :
    (t : Option MessageType) (msg : Message) (s : Client) (w : World)
    → Ends (λ ret s' w'. ret ≡ pos 0 → 0 < msg.length) (dispatch_case t msg s w)
unfolding dispatch_case ◌>>=◌
dispatch_case_lem (some std_out) msg s w = ground arith
dispatch_case_lem _ msg s w = ground arith

dispatch-Progresses : Progresses dispatch
unfolding dispatch
dispatch-Progresses = record {
  on = λ m s w. dispatch_case_lem (of_code (message_at m).type) (message_at m) s w;
}

-- From a valid buffer, whatever a fitting read brings, `client_process_remote` ends, breaks no
-- assertion and leaves a valid buffer; if it returns 0 there is space for the next read.
pub client_process_remote_lem :
    (s : ℤ) (b : Buffer) (c : Client) (w : World)
    → ReadFits w.kernel
    → IsValid b
    → Ends Processed (process_remote s b c w)
unfolding process_remote
client_process_remote_lem s b c w reads v =
    process_remote_lem dispatch dispatch-Progresses s b c w reads v
