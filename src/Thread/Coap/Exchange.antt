-- ===== src/Thread/Coap/Exchange.antt =====
-- One exchange over a link that loses datagrams.
