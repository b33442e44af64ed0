-- ===== src/Hht.antt =====
-- main/core/hht: the handheld terminal of the elevator controllers, its keys and its display over a
-- UART.
pub mod Keys
pub mod Display
pub mod Wb100
pub mod Report
pub mod Main

-- hht_type_t; `count` is HHT_TYPE_COUNT, which no terminal has.
pub data HhtType : Type 0 where
  wb100 hht_3000 hht_100 count : HhtType
