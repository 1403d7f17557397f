-- ===== src/Klines.antt =====
-- packages/gateway/src/demo/klines.ts: the span arithmetic of the kline cache, and the windows
-- of bars that a judgment may see. Times are whole milliseconds, so `Number.isFinite` holds of
-- every bound.
mod Examples
pub mod Spans
pub mod Bars
pub mod Window
