-- ===== src/Http.antt =====
-- internal/httpapi/server.go: the handlers over the modelled stores. What net/http, encoding/json and
-- strconv make of a request is given.
pub mod Types
pub mod Guards
pub mod Mail
pub mod Boxes
pub mod Admitted
pub mod Reading
pub mod Posting
pub mod Pages
pub mod Chunks
pub mod Health
pub mod Requests
pub mod Sound
pub mod Boxed
pub mod Stocked
pub mod Steady
pub mod Polled
