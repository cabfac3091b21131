-- ===== src/SricIf/Init.antt =====
-- sricd/sric-if.c: the start of the serial interface.
use sricd.Base.{Option}
use sricd.World.{World, Platform, Outcome, ok, ◌>>=◌, call, watch_serial_input}
use sricd.Terminal.{TermiosCalls}
use sricd.SricEnum.{sric_enum_start}
use sricd.SricIf.Serial.{or_exit, serial_conf}

module _ (T : TermiosCalls) ⦃env : Platform⦄ where
  -- The first argument is what `open` returns.
  unfoldable pub sric_if_init : Option (T.Line) → World → Outcome (T.Line × World)
  unfolding serial_conf
  sric_if_init opened w = do
    fd ← or_exit opened
    configured ← serial_conf T fd
    w' ← sric_enum_start (call watch_serial_input w)
    ok (configured, w')
