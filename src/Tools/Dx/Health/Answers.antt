-- ===== src/Tools/Dx/Health/Answers.antt =====
-- get_project_health: the answer, and what the score tells.
