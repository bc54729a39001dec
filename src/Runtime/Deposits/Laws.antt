-- ===== src/Runtime/Deposits/Laws.antt =====
-- What is reserved in all for a number of signatories, proxies, announcements and bytes.
