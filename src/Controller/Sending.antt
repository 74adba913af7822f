-- ===== src/Controller/Sending.antt =====
-- stream.go: `Request`, the replies and `Kick`. Whether the stream takes a message is for the
-- environment to say: `failure` is the error that `stream.Send` returns.
use totem.Base.{
  ℕ, true, Option, none, some, [], ◌∷◌, ◌++◌, ◌+◌, ◌%◌, length, if◌then◌else◌, nat_eq, Bytes,
}
use totem.Base.Table.{store}
use totem.Wire.{Rpc, Content, ServerStreamMessage, response, server_stream_msg}
use totem.Status.{Err, StatusApi, is_eof, ok_status}
use totem.Metadata.{from_md}
use totem.Context.{Ctx, Tracing, outgoing_md}
use totem.Controller.{Controller, new_chan, uint64_mod}

-- `kickOnce` lets one error through; the channel has room for it.
unfoldable pub kick_with : Err → Controller → Controller
kick_with e c = if c.kicked then c else record c { kicked = true; kick = some e }

-- `stream.Send(m)` under the lock, and what follows
unfoldable pub send_message : Rpc → Option Err → Controller → Controller
unfolding kick_with
send_message m none c = record c { sent = c.sent ++ m ∷ [] }
send_message m (some e) c = if is_eof e then c else kick_with e c

abbrev pub next_tag : Controller → ℕ
next_tag c = (c.count + 1) % uint64_mod

-- the message as `Request` sends it
abbrev pub stamped : Tracing → Ctx → Rpc → Controller → Rpc
stamped tracing ctx m c = record m {
  tag = next_tag c;
  metadata = from_md (some (outgoing_md tracing ctx));
}

-- `Request` up to the send: no other goroutine has the new tag or the new channel yet. The channel
-- that it returns is the last one.
unfoldable pub issue : Tracing → Ctx → Rpc → Controller → Controller
issue tracing ctx m c = record c {
  count = next_tag c;
  channels = c.channels ++ new_chan ∷ [];
  pending = store (next_tag c) (length c.channels) c.pending;
  waiting = c.waiting ++ stamped tracing ctx m c ∷ [];
}

abbrev pub blank : ℕ → Content → Rpc
blank tag content = record {
  tag = tag;
  service_name = [];
  method_name = [];
  content = some content;
  metadata = none;
}

-- the message of `Reply`
unfoldable pub reply_message : Tracing → Ctx → ℕ → Bytes → Rpc
reply_message tracing ctx tag body =
    record (blank tag
      (response (some (record { response = body; status_proto = some ok_status })))) {
        metadata = from_md (some (outgoing_md tracing ctx));
      }

-- the message of `ReplyErr`
unfoldable pub reply_err_message : StatusApi → Tracing → Ctx → ℕ → Option Err → Rpc
reply_err_message api tracing ctx tag e =
    record (blank tag (response (some (record { response = []; status_proto = api.convert e })))) {
      metadata = from_md (some (outgoing_md tracing ctx));
    }

-- the message of `StreamReply`
unfoldable pub stream_reply_message : ℕ → Option ServerStreamMessage → Rpc
stream_reply_message tag msg = blank tag (server_stream_msg msg)
