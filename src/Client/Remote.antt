-- ===== src/Client/Remote.antt =====
-- What the server sends: the handlers and `client_dispatch_remote` of client/jail.c.
pub mod Safety
pub mod Status
use jail.Base.{
  ℕ, ◌+◌, Bool, true, false, Option, none, some, ltb, if◌then◌else◌, not, ◌||◌, ◌==ℤ◌, ℤ, pos,
  minus_one, is_neg,
}
use jail.Posix.{M, ◌>>=◌, ◌>>◌, pure, modify, call, write}
use jail.Message.{
  Message, MessageType, std_out, std_err, status, of_code, slice, sizeof_message, offsetof_body,
}
use jail.Buffer.{Buffer, sub_size}
use jail.Buffer.Drain
use jail.Client.{Client}

-- `client_process_remote_stdio`
unfoldable pub process_stdio : ℤ → Message → M Client ℤ
process_stdio fd msg = if ltb msg.length sizeof_message then pure minus_one else do
  let len = sub_size msg.length sizeof_message + 1
  ret ← call (write fd (slice msg.memory offsetof_body len))
  pure (if is_neg ret || not (ret ==ℤ pos len) then minus_one else pos 0)

-- `client_process_remote_status`. The check is against `sizeof(message_t)`, and the four bytes of
-- the status are read wherever the message ends.
unfoldable pub process_status : Message → M Client ℤ
process_status msg =
    if ltb msg.length sizeof_message
    then pure minus_one
    else do modify (λ c. record c { status = slice msg.memory 4 4; sigterm = true }); pure (pos 0)

unfoldable pub dispatch_case : Option MessageType → Message → M Client ℤ
unfolding process_stdio process_status
dispatch_case (some std_out) msg = process_stdio (pos 1) msg
dispatch_case (some std_err) msg = process_stdio (pos 2) msg
dispatch_case (some status) msg = process_status msg
dispatch_case _ msg = pure minus_one

-- `client_dispatch_remote`
unfoldable pub dispatch : Message → M Client ℤ
unfolding dispatch_case
dispatch msg = dispatch_case (of_code msg.type) msg

-- `client_process_remote`
unfoldable pub process_remote : ℤ → Buffer → M Client (ℤ × Buffer)
process_remote s b = Drain.process_remote dispatch s b
