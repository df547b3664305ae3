-- ===== src/Models.antt =====
-- The data model (`faar/models.py`). Identifiers, venues and hashes are texts that the code only
-- compares for equality: a text of that kind is a number. An instant is a number of microseconds
-- of UTC, an amount of money a number of units of 10^-100 USD, the finest that `canonical.py` admits.
pub mod Enums
pub mod Payload
pub mod Grant
pub mod Requests
