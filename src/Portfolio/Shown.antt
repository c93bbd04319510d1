-- ===== src/Portfolio/Shown.antt =====
-- What the page of a portfolio shows, and where it leads.
use mathlib.Core.Option
use likedao.Common.{Option}
use likedao.Portfolio.{Portfolio}
