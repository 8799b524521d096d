-- ===== src/Harris/Hp/Insert.antt =====
-- src/linkedlist-harris-hp/harris_opt.c: an insertion that gets no memory.
use qsense.Harris.Hazard
