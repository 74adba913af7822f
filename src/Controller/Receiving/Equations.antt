-- ===== src/Controller/Receiving/Equations.antt =====
-- The functions of the loop, branch by branch, as equations.
use totem.Base.{ℕ, ◌≡◌, true, false, Option, none, some, List, nat_eq, get_elem?}
use totem.Base.Table.{load, delete}
use totem.Wire.{Rpc}
use totem.Status.{Err, StatusApi}
use totem.Controller.{Chan, Controller, draining, next, blocks, crashes, unexpected_tag}
use totem.Controller.Sending.{send_message}
use totem.Controller.Receiving.{
  push, receive_response, receive_stream_msg, on_cancel, on_transmit, on_read, cancel_call,
  cancellation, remove_at, store_chan, take_message,
}

-- A message that answers no pending call stops the program; one that answers one is pushed.
module _ (m : Rpc) (c : Controller) where
  pub receive_response-none :
      load m.tag c.pending ≡ none → receive_response m c ≡ crashes (unexpected_tag m.tag)
  unfolding receive_response
  receive_response-none e = rw (e, receive_response)

  pub receive_response-some :
      (a : ℕ)
      → load m.tag c.pending ≡ some a
      → receive_response m c ≡ push true a m (record c { pending = delete m.tag c.pending })
  unfolding receive_response
  receive_response-some a e = rw (e, receive_response)

  pub receive_stream_msg-none :
      load m.tag c.pending ≡ none → receive_stream_msg m c ≡ crashes (unexpected_tag m.tag)
  unfolding receive_stream_msg
  receive_stream_msg-none e = rw (e, receive_stream_msg)

  pub receive_stream_msg-some :
      (a : ℕ) → load m.tag c.pending ≡ some a → receive_stream_msg m c ≡ push false a m c
  unfolding receive_stream_msg
  receive_stream_msg-some a e = rw (e, receive_stream_msg)

pub on_cancel-some :
    (api : StatusApi) (e : Option Err) (tags : List ℕ) (tag a : ℕ) (c : Controller)
    → load tag c.pending ≡ some a
    → on_cancel api (draining e tags) tag c
      ≡ push true a (cancellation api e tag) (record c { pending = delete tag c.pending })
unfolding on_cancel cancel_call
on_cancel-some api e tags tag a c h = rw (h, on_cancel)

module _ (a : ℕ) (c : Controller) where
  pub on_read-none : get_elem? c.channels a ≡ none → on_read a c ≡ blocks
  unfolding on_read
  on_read-none e = rw (e, on_read)

  pub on_read_empty :
      (ch : Chan) → get_elem? c.channels a ≡ some ch → take_message ch ≡ none → on_read a c ≡ blocks
  unfolding on_read
  on_read_empty ch e t = rw (e, on_read) (rw t)

  pub on_read-some :
      (ch out : Chan)
      → get_elem? c.channels a ≡ some ch
      → take_message ch ≡ some out
      → on_read a c ≡ next (store_chan a out c)
  unfolding on_read
  on_read-some ch out e t = rw (e, on_read) (rw t)

  pub on_transmit-none :
      (failure : Option Err) → get_elem? c.waiting a ≡ none → on_transmit a failure c ≡ blocks
  unfolding on_transmit
  on_transmit-none failure e = rw (e, on_transmit)

  pub on_transmit-some :
      (m : Rpc) (failure : Option Err)
      → get_elem? c.waiting a ≡ some m
      → on_transmit a failure c
        ≡ next (send_message m failure (record c { waiting = remove_at a c.waiting }))
  unfolding on_transmit
  on_transmit-some m failure e = rw (e, on_transmit)
