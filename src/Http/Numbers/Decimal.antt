-- ===== src/Http/Numbers/Decimal.antt =====
-- ParseInt reads what %d prints.
