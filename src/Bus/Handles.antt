-- ===== src/Bus/Handles.antt =====
-- Which handles are open in the end.
use thiam_api.Bus.{
  or_close, dial, open_channel, or_close_both, Wire, opening, closing, new_publisher,
  new_subscriber,
}
use thiam_api.Exec.{wrapping, Exec, ◌>>◌, attempt, Env, World, Result, ok, err, panics, call}
use thiam_api.Base.{refl, ◌+◌, String, arith, ◌≡◌, Bool, true, false}

-- Whether a call returned without an error.
abbrev pub is_ok : Result (Unit {0}) → Bool
is_ok (ok a) = true
is_ok (err e) = false
is_ok (panics t) = false

-- Both handles are open after a call that returned, and neither after one that reports an error.
abbrev pub IsMade : Result (Unit {0}) × World Wire → Type 0
IsMade (r, v) = (v.state.connection ≡ is_ok r) × (v.state.channel ≡ is_ok r)

module _ (env : Env) where
  -- A declaration, with both handles open, and what comes after it.
  IsMade-declaring :
      (text : String) (n : Exec Wire (Unit {0})) (w : World Wire)
      → w.state.connection ≡ true
      → w.state.channel ≡ true
      → IsMade (n (record { calls = w.calls + 1; state = w.state }))
      → IsMade ((or_close_both env text (attempt env) >> n) w)
  unfolding opening closing call
  IsMade-declaring text n w c d h = ground (arith, c, d, h)

  -- The last declaration.
  IsMade-declared :
      (text : String) (w : World Wire)
      → w.state.connection ≡ true
      → w.state.channel ≡ true
      → IsMade (or_close_both env text (attempt env) w)
  unfolding opening closing call
  IsMade-declared text w c d = ground (arith, c, d)

  -- Dialling and the channel, with no handle open, and what comes after them.
  IsMade-connecting :
      (before text : String) (n : Exec Wire (Unit {0})) (w : World Wire)
      → w.state.connection ≡ false
      → w.state.channel ≡ false
      → IsMade (
          n (record {
            calls = w.calls + 1 + 1;
            state = record w.state { connection = true; channel = true };
          }))
      → IsMade ((wrapping before (dial env) >> (or_close env text (open_channel env) >> n)) w)
  unfolding opening closing call
  IsMade-connecting before text n w c d h = ground (arith, c, d, h)

  -- A publisher and a subscriber that were made have their connection and their channel, and where
  -- their constructor reports an error neither is left open, whichever call failed.
  IsMade-new_subscriber :
      (w : World Wire)
      → w.state.connection ≡ false
      → w.state.channel ≡ false
      → IsMade (new_publisher env w) × IsMade (new_subscriber env w)
  unfolding new_publisher new_subscriber
  IsMade-new_subscriber w c d = (
    IsMade-connecting _ _ _ w c d (IsMade-declared _ _ refl refl),
    IsMade-connecting _ _ _ w c d
        (IsMade-declaring _ _ _ refl refl (IsMade-declared _ _ refl refl)),
  )
