-- ===== src/Bus.antt =====
-- pkg/eventbus/rabbitmq.go and rabbitmq_subscriber.go: the connections of the publisher and of the
-- subscriber. In the AMQP library a handle that is closed is closed also where `Close` reports an
-- error, since it defers its shutdown.
pub mod Handles
use Prim.Native.String.{◌++◌ as concat}
use thiam_api.Base.{◌+◌, Bool, true, false, List, [], ◌∷◌, ◌++◌, String}
use thiam_api.Errors.{wrap}
use thiam_api.Exec.{
  Env, Exec, Outcome, done, refused, lost, World, Result, ok, err, fail, ◌>>=◌, ◌>>◌, catch,
  wrapping, ignoring, call, attempt,
}

-- A queue that is bound to an exchange.
pub record Binding : Type 0 where
  pub queue : String
  pub routing_key : String
  pub exchange : String

-- Which handles are open, and what the broker has for them.
pub record Wire : Type 0 where
  pub connection : Bool
  pub channel : Bool
  pub bindings : List Binding
  pub consumers : List String

module _ (env : Env) where
  -- A handle that is opened, if the call reports no error.
  abbrev pub opened : (Wire → Wire) → Outcome → World Wire → Result (Unit {0}) × World Wire
  opened put done w = (ok tt, record { calls = w.calls + 1; state = put w.state })
  opened put (refused e) w = (err e, record { calls = w.calls + 1; state = w.state })
  opened put (lost e) w = (err e, record { calls = w.calls + 1; state = w.state })

  unfoldable pub opening : (Wire → Wire) → Exec Wire (Unit {0})
  opening put w = opened put (env.outcome w.calls) w

  -- A handle that is closed, whatever the call reports.
  abbrev pub closed : (Wire → Wire) → Outcome → World Wire → Result (Unit {0}) × World Wire
  closed put done w = (ok tt, record { calls = w.calls + 1; state = put w.state })
  closed put (refused e) w = (err e, record { calls = w.calls + 1; state = put w.state })
  closed put (lost e) w = (err e, record { calls = w.calls + 1; state = put w.state })

  unfoldable pub closing : (Wire → Wire) → Exec Wire (Unit {0})
  closing put w = closed put (env.outcome w.calls) w

  abbrev pub dial : Exec Wire (Unit {0})
  dial = opening (λ w. record w { connection = true })

  abbrev pub open_channel : Exec Wire (Unit {0})
  open_channel = opening (λ w. record w { channel = true })

  abbrev pub close_connection : Exec Wire (Unit {0})
  close_connection = closing (λ w. record w { connection = false })

  abbrev pub close_channel : Exec Wire (Unit {0})
  close_channel = closing (λ w. record w { channel = false })

  -- `if err != nil { conn.Close(); return … }`, and with the channel.
  abbrev pub or_close : String → Exec Wire (Unit {0}) → Exec Wire (Unit {0})
  or_close text m = catch m λ e. ignoring close_connection >> fail (wrap text "" e)

  abbrev pub or_close_both : String → Exec Wire (Unit {0}) → Exec Wire (Unit {0})
  or_close_both text m =
      catch m λ e. ignoring close_channel >> ignoring close_connection >> fail (wrap text "" e)

  -- `NewRabbitMQPublisher`
  unfoldable pub new_publisher : Exec Wire (Unit {0})
  unfolding opening closing call
  new_publisher = do
    wrapping "RabbitMQPublisher - dial: " dial
    or_close "RabbitMQPublisher - channel: " open_channel
    or_close_both "RabbitMQPublisher - declare exchange: " (attempt env)

  -- `NewRabbitMQSubscriber`
  unfoldable pub new_subscriber : Exec Wire (Unit {0})
  unfolding opening closing call
  new_subscriber = do
    wrapping "RabbitMQSubscriber - dial: " dial
    or_close "RabbitMQSubscriber - channel: " open_channel
    or_close_both "RabbitMQSubscriber - declare exchange: " (attempt env)
    or_close_both "RabbitMQSubscriber - declare queue: " (attempt env)

  -- `RabbitMQPublisher.Close`
  unfoldable pub close_publisher : Exec Wire (Unit {0})
  unfolding closing
  close_publisher = do
    wrapping "RabbitMQPublisher - close channel: " close_channel
    wrapping "RabbitMQPublisher - close connection: " close_connection

  -- `RabbitMQSubscriber.Close`
  unfoldable pub close_subscriber : Exec Wire (Unit {0})
  unfolding closing
  close_subscriber = do
    wrapping "RabbitMQSubscriber - close channel: " close_channel
    wrapping "RabbitMQSubscriber - close connection: " close_connection

  abbrev pub bind : Binding → Wire → Wire
  bind b w = record w { bindings = w.bindings ++ b ∷ [] }

  abbrev pub consume : String → Wire → Wire
  consume queue w = record w { consumers = w.consumers ++ queue ∷ [] }

  -- `RabbitMQSubscriber.Subscribe`, up to the goroutine that it starts.
  unfoldable pub subscribe : String → String → String → Exec Wire (Unit {0})
  unfolding call
  subscribe exchange queue topic = do
    wrapping "RabbitMQSubscriber - bind queue: " (
        call env
          (bind (record { queue = queue; routing_key = concat topic ".#"; exchange = exchange })))
    wrapping "RabbitMQSubscriber - consume: " (call env (consume queue))
