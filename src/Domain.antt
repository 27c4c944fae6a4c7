-- ===== src/Domain.antt =====
-- service/app/domain.py: the enumerations and records of the custody service. A `datetime` is a
-- number of microseconds, and a `dict` with text keys a `Dict`.
mod Enums
mod Cases
mod Effects
mod Views
mod Relay
mod Analysis
unfoldable pub use Enums.*
pub use Cases.*
pub use Effects.*
unfoldable pub use Views.*
pub use Relay.*
pub use Analysis.*
