-- ===== src/Pwm/Writer/Calls.antt =====
-- `DirectPWMWriter` under any sequence of its calls.
use kaivuriprokkis.Prelude.{List, [], ◌∷◌}
use kaivuriprokkis.Prelude.Int.{ℤ}
use kaivuriprokkis.Pwm.Writer.{I2c, Writer, set_channel, set_channel_range, flush}
use kaivuriprokkis.Pwm.Writer.Flush.{
  IsReady, set_channel-IsReady, set_channel_range-IsReady, flush-IsReady,
}

pub data WriterCall : Type 0 where
  stores ranges : ℤ → ℤ → WriterCall
  flushes : WriterCall

module _ {B : Type 0} ⦃bus : I2c B⦄ where
  -- What a call leaves, whether or not it raises.
  unfoldable pub writer_call : WriterCall → Writer B → Writer B
  unfolding set_channel set_channel_range flush
  writer_call (stores channel count) w = (set_channel channel count w).0
  writer_call (ranges lo hi) w = (set_channel_range lo hi w).0
  writer_call flushes w = (flush w).0

  unfoldable pub writer_calls : List WriterCall → Writer B → Writer B
  unfolding writer_call
  writer_calls [] w = w
  writer_calls (c ∷ cs) w = writer_calls cs (writer_call c w)

  writer_call-IsReady : (c : WriterCall) (w : Writer B) → IsReady w → IsReady (writer_call c w)
  unfolding writer_call
  writer_call-IsReady (stores channel count) w r = set_channel-IsReady channel count w r
  writer_call-IsReady (ranges lo hi) w r = set_channel_range-IsReady lo hi w r
  writer_call-IsReady flushes w r = flush-IsReady w r

  -- From a ready writer, any sequence of stored counts, changes of the range and flushes, in or out
  -- of range, on either driver and also when transfers fail, leaves it ready: its range within the
  -- sixteen channels, its buffer a frame for that range, and its counts within 12 bits.
  pub writer_calls-IsReady :
      (cs : List WriterCall) (w : Writer B) → IsReady w → IsReady (writer_calls cs w)
  unfolding writer_calls
  writer_calls-IsReady [] w r = r
  writer_calls-IsReady (c ∷ cs) w r =
      writer_calls-IsReady cs (writer_call c w) (writer_call-IsReady c w r)
